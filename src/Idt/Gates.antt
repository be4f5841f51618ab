-- ===== src/Idt/Gates.antt =====
-- Which vector leads where after `idt_init`.
use mathlib.Core.Path.{subst}
use lkd.Prelude.{
  ℕ, zero, suc, ◌+◌, ◌-◌, ◌*◌, ◌^◌, ◌<◌, some, Bool, true, ltb, leb, ◌==◌, ◌&&◌, if◌then◌else◌,
  ◌>>>◌, codes, ◌≡◌, ◌≢◌, ◌≤◌, arith, sym, ap, ◌∙◌, ◌++◌,
}
use lkd.Bits.Fields.{bit_and-low}
use lkd.Printing.{Printer}
use lkd.Serial.{Serial}
use lkd.Serial.Sent.{Answers, sent, write_str-sends}
use lkd.Pic.{pic}
use lkd.Pic.Remap.{pic_remaps}
use lkd.Idt.{IdtEntry, idt_setup_entry, Table, set_entry, zero_entry, setup_from, idt_init}

-- The address that the processor reads from a gate.
abbrev pub gate_offset : IdtEntry → ℕ
gate_offset e = e.offset_low + e.offset_high * 2 ^ 16

-- A gate leads to the address it was set up with, in the segment and with the attributes given.
pub idt_setup_entry_lem :
    (offset selector flags : ℕ)
    → offset < 2 ^ 32
    → selector < 2 ^ 16
    → flags < 2 ^ 8
    → (gate_offset (idt_setup_entry offset selector flags) ≡ offset)
      × ((idt_setup_entry offset selector flags).selector ≡ selector)
      × ((idt_setup_entry offset selector flags).flags ≡ flags)
      × ((idt_setup_entry offset selector flags).reserved ≡ 0)
unfolding idt_setup_entry
idt_setup_entry_lem offset selector flags ho hs hf =
    omega (arith, bit_and-low 16 offset, bit_and-low 16 (offset >>> 16))

setup_from_lem :
    (stubs : ℕ → ℕ) (first i n j : ℕ) (t : Table)
    → setup_from stubs first i n t j
      ≡ (if leb i j && ltb j (i + n) then idt_setup_entry (stubs (j - first)) 0x08 0x8e else t j)
unfolding setup_from
setup_from_lem stubs first i zero j t = ground arith
setup_from_lem stubs first i (suc n) j t = ground (
  arith,
  setup_from_lem stubs first (i + 1) n j
      (set_entry t i (idt_setup_entry (stubs (i - first)) 0x08 0x8e)),
)

-- A gate of the kernel's code segment that leads to an address, with these attributes.
abbrev pub LeadsTo : ℕ → ℕ → IdtEntry → Type 0
LeadsTo address flags e =
    (gate_offset e ≡ address) × (e.selector ≡ 0x08) × (e.flags ≡ flags) × (e.reserved ≡ 0)

module _ (input : ℕ → ℕ → ℕ) (fuel : ℕ) (answers : Answers input fuel) (isr_table irq_table : ℕ → ℕ)
    (isr_128 : ℕ) where
  -- The gate of each vector.
  abbrev pub gate : ℕ → IdtEntry
  gate j =
      if ltb j 32
      then idt_setup_entry (isr_table j) 0x08 0x8e
      else if ltb j 48
      then idt_setup_entry (irq_table (j - 32)) 0x08 0x8e
      else if j == 0x80
      then idt_setup_entry isr_128 0x08 0xEE
      else zero_entry

  pub idt_init-gates :
      (pic_init : Bool) (p : Printer Serial)
      → (t : Table) × (d : Serial) × (idt_init input fuel isr_table irq_table isr_128 pic_init p
          ≡ some ((t, true), record p { device = d }))
        × ((j : ℕ) → t j ≡ gate j)
        × (d.ports.written
            ≡ (pic (record { init = pic_init; ports = p.device.ports })).ports.written
              ++ sent p.device.init (codes "[MAIN] PIC > OK\n"))
  unfolding idt_init
  idt_init-gates pic_init p =
      let controllers = pic (record { init = pic_init; ports = p.device.ports }) in
      let before : Printer Serial = record p {
        device = record (p.device) { ports = controllers.ports };
      } in
      let out = write_str-sends input fuel answers (codes "[MAIN] PIC > OK\n") before in
      let set_up = (pic_remaps (record { init = pic_init; ports = p.device.ports })).0 in
      let exceptions : Table = setup_from isr_table 0 0 32 (λ i. zero_entry) in
      let with_call : Table = set_entry exceptions 0x80 (idt_setup_entry isr_128 0x08 0xEE) in
      (
        setup_from irq_table 32 32 16 with_call,
        out.0,
        ground (arith, out.1, set_up),
        λ j. ground (
          arith,
          setup_from_lem irq_table 32 32 16 j with_call,
          setup_from_lem isr_table 0 0 32 j (λ i. zero_entry),
        ),
        out.2,
      )

  gate-line : (i : ℕ) → i < 16 → gate (32 + i) ≡ idt_setup_entry (irq_table i) 0x08 0x8e
  gate-line i below =
      let number : 32 + i - 32 ≡ i = omega arith in ground (arith, ap irq_table number)

  -- Each of the 32 exceptions, the 16 interrupt lines and the system call leads to its own stub, and
  -- every other entry is all zeros.
  abbrev pub IsSetUp : Table → Type 0
  IsSetUp t =
      ((i : ℕ) → i < 32 → LeadsTo (isr_table i) 0x8e (t i))
      × ((i : ℕ) → i < 16 → LeadsTo (irq_table i) 0x8e (t (32 + i)))
      × LeadsTo isr_128 0xEE (t 0x80)
      × ((j : ℕ) → 48 ≤ j → j ≢ 0x80 → t j ≡ zero_entry)

  pub gate-IsSetUp :
      (t : Table)
      → ((j : ℕ) → t j ≡ gate j)
      → ((i : ℕ) → isr_table i < 2 ^ 32)
      → ((i : ℕ) → irq_table i < 2 ^ 32)
      → isr_128 < 2 ^ 32
      → IsSetUp t
  gate-IsSetUp t gates isrs irqs call = (
    λ i below.
        subst (LeadsTo (isr_table i) 0x8e) (sym (gates i ∙ ground arith))
          (idt_setup_entry_lem (isr_table i) 0x08 0x8e (isrs i) (omega arith) (omega arith)),
    λ i below.
        subst (LeadsTo (irq_table i) 0x8e) (sym (gates (32 + i) ∙ gate-line i below))
          (idt_setup_entry_lem (irq_table i) 0x08 0x8e (irqs i) (omega arith) (omega arith)),
    subst (LeadsTo isr_128 0xEE) (sym (gates 0x80))
        (idt_setup_entry_lem isr_128 0x08 0xEE call (omega arith) (omega arith)),
    λ j above other. gates j ∙ ground arith,
  )
