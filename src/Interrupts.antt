-- ===== src/Interrupts.antt =====
-- `irq_handler` of src/interrupts/handlers.cpp: what a line of the interrupt controllers calls.
-- The state is that of the parts that it calls: the ticks of the timer, the processes, the
-- keyboard, and the serial line with the ports. `isr_handler` is in Interrupts/Exceptions.
pub mod Lines
pub mod Exceptions
pub mod Reports
pub mod Sequences
mod Tests
use lkd.Prelude.{ℕ, Option, none, some, Bool, ◌==◌, if◌then◌else◌}
use lkd.Ports.{Ports}
use lkd.Printing.{Printer}
use lkd.Serial.{Serial}
use lkd.Timer.{Pit, pit_interrupt_handler}
use lkd.Pic.{pic_send_eoi}
use lkd.Keyboard.{Keyboard, keyboard_interrupt_handler}
use lkd.Process.{InterruptState, Scheduler, switch_process}

pub record Machine : Type 0 where
  pub timer_init : Bool
  pub ticks : ℕ
  pub scheduler : Scheduler
  pub keyboard : Keyboard
  pub printer : Printer Serial

abbrev pub ports : Machine → Ports
ports m = m.printer.device.ports

-- The timer's interrupt.
unfoldable pub timer_line : InterruptState → Machine → InterruptState × Machine
timer_line state m =
    let t =
      pit_interrupt_handler (record { init = m.timer_init; ticks = m.ticks; ports = ports m }) in
    let (state', s) = switch_process state m.scheduler in
    (state', record m { ticks = t.ticks; scheduler = s })

-- `pic_send_eoi(int_num)`
unfoldable pub acknowledge : ℕ → Machine → Machine
acknowledge int_num m = record m {
  printer = record (m.printer) {
    device = record (m.printer.device) { ports = pic_send_eoi int_num (ports m) };
  };
}

module _ (input : ℕ → ℕ → ℕ) (fuel : ℕ) where
  unfoldable pub keyboard_line : Machine → Option Machine
  keyboard_line m = elim (keyboard_interrupt_handler input fuel m.keyboard m.printer) [
    | none ↦ none
    | some (k, p) ↦ some (record m { keyboard = k; printer = p })
  ]

  -- The state that the interrupt returns to, and the machine.
  unfoldable pub irq_handler : InterruptState → Machine → Option (InterruptState × Machine)
  irq_handler state m =
      let int_num = state.interrupt_number in
      let (switched, ticked) = timer_line state m in
      if int_num == 0
      then some (switched, acknowledge int_num ticked)
      else if int_num == 1
      then elim (keyboard_line m) [ none ↦ none | some m' ↦ some (state, acknowledge int_num m') ]
      else some (state, acknowledge int_num m)
