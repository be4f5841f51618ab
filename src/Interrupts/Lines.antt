-- ===== src/Interrupts/Lines.antt =====
-- What each line of the controllers does, and that it is acknowledged.
use native.Mathlib.Decide.{ℕ_discrete}
use lkd.Prelude.{
  ℕ, ◌+◌, List, [], ◌∷◌, ◌++◌, Option, some, Bool, true, leb, ◌==◌, if◌then◌else◌, u8, u32, ◌≡◌,
  ◌≢◌, ap, ◌∙◌, arith,
}
use lkd.Ports.{inb}
use lkd.Printing.{Printer}
use lkd.Serial.{Serial}
use lkd.Serial.Sent.{Answers}
use lkd.Timer.{pit_interrupt_handler}
use lkd.Pic.Remap.{to_master, to_slave, pic_send_eoi_lem}
use lkd.Keyboard.{Keyboard, keyboard_interrupt_handler, receive}
use lkd.Keyboard.Queue.{IsValid, pending}
use lkd.Keyboard.Modifiers.{typed, receive-Received}
use lkd.Process.{InterruptState, switch_process}
use lkd.Interrupts.{Machine, ports, timer_line, acknowledge, keyboard_line, irq_handler}

module _ (input : ℕ → ℕ → ℕ) (fuel : ℕ) (answers : Answers input fuel) (state : InterruptState)
    (m : Machine) where
  -- The scancode that the keyboard's handler reads.
  abbrev pub scancode : ℕ
  scancode = u8 (input (ports m).reads 0x60)

  -- The serial line behind the read of the scancode.
  abbrev read_scancode : Printer Serial
  read_scancode = record (m.printer) {
    device = record (m.printer.device) { ports = (inb input 0x60 (ports m)).1 };
  }

  keyboard_ready :
      m.keyboard.init ≡ true
      → keyboard_interrupt_handler input fuel m.keyboard m.printer
        ≡ receive input fuel scancode m.keyboard read_scancode
  unfolding keyboard_interrupt_handler inb
  keyboard_ready ready =
      ap
        (λ (init : Bool).
          if init
          then receive input fuel scancode m.keyboard read_scancode
          else some (m.keyboard, m.printer))
        ready

  keyboard_result :
      {k : Keyboard} {p : Printer Serial}
      → m.keyboard.init ≡ true
      → state.interrupt_number ≡ 1
      → receive input fuel scancode m.keyboard read_scancode ≡ some (k, p)
      → irq_handler input fuel state m
        ≡ some (state, acknowledge state.interrupt_number (record m { keyboard = k; printer = p }))
  unfolding irq_handler keyboard_line
  keyboard_result ready key result = rw (keyboard_ready ready ∙ result) (ground arith)

  -- The whole effect of an interrupt on a line.
  abbrev pub Handled : Option (InterruptState × Machine) → Type 0
  Handled r =
      (state' : InterruptState) × (m' : Machine) × (r ≡ some (state', m'))
      × (m'.ticks ≡ (if state.interrupt_number == 0 then u32 (m.ticks + 1) else m.ticks))
      × ((state', m'.scheduler) ≡ (
          if state.interrupt_number == 0
          then switch_process state m.scheduler
          else (state, m.scheduler)))
      × IsValid m'.keyboard
      × (pending m'.keyboard
          ≡ (if state.interrupt_number == 1 then typed scancode m.keyboard else pending m.keyboard))
      × ((before : List ℕ) × (to_master (ports m') ≡ before ++ 0x20 ∷ []))
      × (state.interrupt_number ≢ 1
          → to_slave (ports m')
            ≡ to_slave (ports m) ++ (if leb 8 state.interrupt_number then 0x20 ∷ [] else []))

  pub irq_handler-Handled : IsValid m.keyboard → Handled (irq_handler input fuel state m)
  unfolding irq_handler timer_line acknowledge keyboard_line pit_interrupt_handler
      keyboard_interrupt_handler inb
  irq_handler-Handled v = elim (ℕ_discrete state.interrupt_number 0) [
    | yes timer ↦
        let eoi = pic_send_eoi_lem state.interrupt_number (ports m) in
        (
          (timer_line state m).0,
          acknowledge state.interrupt_number ((timer_line state m).1),
          ground arith,
          ground arith,
          ground arith,
          v,
          ground arith,
          (to_master (ports m), eoi.0),
          λ h. eoi.1,
        )
    | no other ↦ elim (ℕ_discrete state.interrupt_number 1) [
      | yes key ↦
          let (k, p', result, valid, waiting, column) =
            receive-Received input fuel answers scancode m.keyboard read_scancode v in
          let m' : Machine = record m { keyboard = k; printer = p' } in
          let eoi = pic_send_eoi_lem state.interrupt_number (ports m') in
          (
            state,
            acknowledge state.interrupt_number m',
            keyboard_result v.ready key result,
            ground arith,
            ground arith,
            valid,
            ground (arith, waiting),
            (to_master (ports m'), eoi.0),
            λ h. absurd (h key),
          )
      | no none_of_them ↦
          let eoi = pic_send_eoi_lem state.interrupt_number (ports m) in
          (
            state,
            acknowledge state.interrupt_number m,
            ground arith,
            ground arith,
            ground arith,
            v,
            ground arith,
            (to_master (ports m), eoi.0),
            λ h. eoi.1,
          )
    ]
  ]
