-- ===== src/Timer.antt =====
-- `timer::PIT` of src/devices/timer.cpp.
pub mod Reload
mod Tests
use lkd.Prelude.{
  ℕ, ◌+◌, ◌/◌, ◌%◌, ◌^◌, Option, some, none, Bool, true, ◌==◌, if◌then◌else◌, bit_and, u32, ◌>>>◌,
}
use lkd.Ports.{Ports, outb}

abbrev pub pit_command : ℕ
pit_command = 0x43

abbrev pub pit_repeat_mode : ℕ
pit_repeat_mode = 0x36

abbrev pub pit_data_ch0 : ℕ
pit_data_ch0 = 0x40

pub record Pit : Type 0 where
  pub init : Bool
  pub ticks : ℕ
  pub ports : Ports

unfoldable pub pit_interrupt_handler : Pit → Pit
pit_interrupt_handler t = record t { ticks = u32 (t.ticks + 1) }

-- The constructor; `none` is the division by 0.
unfoldable pub pit : ℕ → Pit → Option Pit
pit freq_hz t =
    let divisor = 1193180 / freq_hz in
    let io = outb pit_command pit_repeat_mode t.ports in
    let io = outb pit_data_ch0 (bit_and divisor 0xFF) io in
    let io = outb pit_data_ch0 (bit_and (divisor >>> 8) 0xFF) io in
    if t.init
    then some t
    else if freq_hz == 0
    then none
    else some (record { init = true; ticks = 0; ports = io })
