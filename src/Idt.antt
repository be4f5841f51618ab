-- ===== src/Idt.antt =====
-- src/interrupts/idt.cpp: the interrupt descriptor table. The addresses of the entry stubs, which are
-- assembly, are parameters. `lidt` and `sti` have no effect on the state that is modelled.
pub mod Gates
mod Tests
use lkd.Prelude.{
  ℕ, zero, suc, ◌+◌, ◌-◌, ◌/◌, ◌%◌, ◌^◌, Option, none, some, Bool, ◌==◌, if◌then◌else◌, bit_and, u8,
  u16, ◌>>>◌, codes,
}
use lkd.Ports.{Ports}
use lkd.Printing.{Printer, M}
use lkd.Serial
use lkd.Serial.{Serial}
use lkd.Pic.{Pic, pic}

pub record IdtEntry : Type 0 where
  pub offset_low : ℕ
  pub selector : ℕ
  pub reserved : ℕ
  pub flags : ℕ
  pub offset_high : ℕ

-- The constructor is this function, too.
unfoldable pub idt_setup_entry : ℕ → ℕ → ℕ → IdtEntry
idt_setup_entry offset selector flags = record {
  offset_low = bit_and offset 0xFFFF;
  selector = u16 selector;
  reserved = 0;
  flags = u8 flags;
  offset_high = bit_and (offset >>> 16) 0xFFFF;
}

-- `idt[256]`, by vector.
abbrev pub Table : Type 0
Table = ℕ → IdtEntry

abbrev pub set_entry : Table → ℕ → IdtEntry → Table
set_entry t i e j = if i == j then e else t j

-- What `memset` leaves.
abbrev pub zero_entry : IdtEntry
zero_entry = record { offset_low = 0; selector = 0; reserved = 0; flags = 0; offset_high = 0 }

-- The loops over the vectors, at `i`: the stub's number is `i - first`.
unfoldable pub setup_from : (ℕ → ℕ) → ℕ → ℕ → ℕ → Table → Table
setup_from stubs first i zero t = t
setup_from stubs first i (suc rounds) t =
    setup_from stubs first (i + 1) rounds
      (set_entry t i (idt_setup_entry (stubs (i - first)) 0x08 0x8e))

module _ (input : ℕ → ℕ → ℕ) (fuel : ℕ) (isr_table irq_table : ℕ → ℕ) (isr_128 : ℕ) where
  -- The table, and whether the controllers have been set up; the serial line shares their ports.
  unfoldable pub idt_init : Bool → M Serial (Table × Bool)
  idt_init pic_init p =
      let t = setup_from isr_table 0 0 32 (λ i. zero_entry) in
      let t = set_entry t 0x80 (idt_setup_entry isr_128 0x08 0xEE) in
      let controllers = pic (record { init = pic_init; ports = p.device.ports }) in
      let p' = record p { device = record (p.device) { ports = controllers.ports } } in
      elim (Serial.write_str input fuel (codes "[MAIN] PIC > OK\n") p') [
        | none ↦ none
        | some (n, p'') ↦ some ((setup_from irq_table 32 32 16 t, controllers.init), p'')
      ]
