-- ===== src/Pic.antt =====
-- src/interrupts/pic.cpp: the two interrupt controllers.
pub mod Remap
mod Tests
use lkd.Prelude.{ℕ, List, [], ◌∷◌, Bool, true, leb, if◌then◌else◌}
use lkd.Ports.{Ports, outb}

abbrev pub pic_master_command : ℕ
pic_master_command = 0x20

abbrev pub pic_slave_command : ℕ
pic_slave_command = 0xA0

abbrev pub pic_master_data : ℕ
pic_master_data = 0x21

abbrev pub pic_slave_data : ℕ
pic_slave_data = 0xA1

abbrev pub icw1 : ℕ
icw1 = 0x11

abbrev pub pic_master_offset : ℕ
pic_master_offset = 0x20

abbrev pub pic_slave_offset : ℕ
pic_slave_offset = 0x28

abbrev pub pic_master_icw3 : ℕ
pic_master_icw3 = 0x04

abbrev pub pic_slave_icw3 : ℕ
pic_slave_icw3 = 0x02

abbrev pub icw4 : ℕ
icw4 = 0x1

-- `PIC::_init`, beside the ports.
pub record Pic : Type 0 where
  pub init : Bool
  pub ports : Ports

-- The writes of the constructor.
unfoldable pub remap : Ports → Ports
remap io =
    let io = outb pic_master_command icw1 io in
    let io = outb pic_slave_command icw1 io in
    let io = outb pic_master_data pic_master_offset io in
    let io = outb pic_slave_data pic_slave_offset io in
    let io = outb pic_master_data pic_master_icw3 io in
    let io = outb pic_slave_data pic_slave_icw3 io in
    let io = outb pic_master_data icw4 io in
    let io = outb pic_slave_data icw4 io in
    let io = outb pic_master_data 0x0 io in outb pic_slave_data 0x0 io

-- The constructor.
unfoldable pub pic : Pic → Pic
pic s = if s.init then s else record { init = true; ports = remap s.ports }

unfoldable pub pic_send_eoi : ℕ → Ports → Ports
pic_send_eoi irq io =
    outb pic_master_command 0x20 (if leb 8 irq then outb pic_slave_command 0x20 io else io)
