-- ===== src/Gdt/Logs.antt =====
-- `gdt_init` comes to its end: the lines that it logs fit their formats.
use lkd.Prelude.{ℕ, ◌^◌, ◌<◌, List, [], ◌∷◌, ◌++◌, some, true, codes, ◌≡◌, refl, arith, ltb, ◌&&◌}
use lkd.Printing.{Printer, M, Arg, pure, ◌>>◌, word, long}
use lkd.Printing.Fits.{fits}
use lkd.Serial
use lkd.Serial.{Serial}
use lkd.Serial.Sent.{Answers}
use lkd.Serial.Lines.{CanPrint, kprintf-fits}
use lkd.Gdt.{Descriptor, gdt_segment_descriptor, descriptor_value, Gdt, gdt_setup, gdt_init}

-- The value of a descriptor of the table has 64 bits.
descriptor_value-lt :
    (base limit access flags : ℕ)
    → descriptor_value (gdt_segment_descriptor base limit access flags) < 2 ^ 64
unfolding descriptor_value gdt_segment_descriptor
descriptor_value-lt base limit access flags = omega arith

module _ (input : ℕ → ℕ → ℕ) (fuel : ℕ) (answers : Answers input fuel) where
  -- From any printer with room, a call ends with the result, and leaves room and the printer's
  -- other parts.
  abbrev Always : {A : Type 0} → A → M Serial A → Type 0
  Always a m =
      (p : Printer Serial)
      → CanPrint input fuel p
      → (q : Printer Serial) × (m p ≡ some (a, q)) × CanPrint input fuel q

  Always-then :
      {A : Type 0} (m : M Serial (Unit {0})) (n : M Serial A) (a : A)
      → Always tt m
      → Always a n
      → Always a (m >> n)
  Always-then m n a first second p room =
      let (q, e, room') = first p room in
      let (r, e', room'') = second q room' in (r, ground (arith, e, e'), room'')

  Always-kprintf :
      (fmt : List ℕ) (args : List Arg)
      → fits true fmt args ≡ true
      → Always tt (Serial.kprintf input fuel fmt args)
  Always-kprintf fmt args fit p room =
      let line = (kprintf-fits input fuel answers p room fmt args fit).2 in
      (line.printer, line.ends, line.room)

  -- The line of a descriptor, which takes its eight bytes.
  abbrev line : List ℕ → Descriptor → M Serial (Unit {0})
  line name d =
      Serial.kprintf input fuel (codes "[GDT] Entry: " ++ name ++ codes " Descriptor : %X\n")
        (long (descriptor_value d) ∷ [])

  -- The lines of several descriptors, behind other calls.
  abbrev lines : M Serial (Unit {0}) → List (List ℕ × Descriptor) → M Serial (Unit {0})
  lines m [] = m
  lines m ((name, d) ∷ rest) = lines (m >> line name d) rest

  -- Each line fits, and each descriptor has 64 bits.
  abbrev AllFit : List (List ℕ × Descriptor) → Type 0
  AllFit [] = Unit {0}
  AllFit ((name, d) ∷ rest) =
      (fits true (codes "[GDT] Entry: " ++ name ++ codes " Descriptor : %X\n")
          (long (descriptor_value d) ∷ [])
        ≡ true)
      × AllFit rest

  abbrev descriptors : Gdt → List (List ℕ × Descriptor)
  descriptors g =
      (codes "NULL", g.null_descriptor)
      ∷ (codes "Kernel Code", g.kernel_code)
      ∷ (codes "Kernel Data", g.kernel_data)
      ∷ (codes "User Code", g.user_code)
      ∷ (codes "User Data", g.user_data)
      ∷ (codes "TSS", g.tss_descriptor)
      ∷ []

  Always-lines :
      (m : M Serial (Unit {0})) (ds : List (List ℕ × Descriptor))
      → Always tt m
      → AllFit ds
      → Always tt (lines m ds)
  Always-lines m [] before fit = before
  Always-lines m ((name, d) ∷ rest) before (fit, more) =
      Always-lines (m >> line name d) rest
        (Always-then m (line name d) tt before (Always-kprintf _ _ fit)) more

  all_fit :
      (gdt_address tss_address stack_top : ℕ)
      → AllFit (descriptors (gdt_setup gdt_address tss_address stack_top))
  unfolding gdt_setup
  all_fit gdt_address tss_address stack_top =
      let fit : (base limit access flags : ℕ)
          → ltb (descriptor_value (gdt_segment_descriptor base limit access flags)) (2 ^ 64) && true
            ≡ true =
        λ base limit access flags. ground (arith, descriptor_value-lt base limit access flags) in
      (
        fit 0 0 0 0,
        (
          fit 0 0xFFFFF 0x9A 0xC,
          (
            fit 0 0xFFFFF 0x92 0xC,
            (fit 0 0xFFFFF 0xFA 0xC, (fit 0 0xFFFFF 0xF2 0xC, (fit tss_address 103 0x89 0x00, tt))),
          ),
        ),
      )

  -- On a serial line that answers `gdt_init` ends, and sets the table up.
  pub gdt_init-ends :
      (gdt_address tss_address stack_top : ℕ) (p : Printer Serial)
      → gdt_address < 2 ^ 32
      → CanPrint input fuel p
      → (q : Printer Serial) × (gdt_init gdt_address tss_address stack_top input fuel p
          ≡ some (gdt_setup gdt_address tss_address stack_top, q))
        × CanPrint input fuel q
  unfolding gdt_init
  gdt_init-ends gdt_address tss_address stack_top p small room =
      let g = gdt_setup gdt_address tss_address stack_top in
      let address = codes "[GDT] Entry: GDT address : %x\n" in
      let ds = descriptors g in
      let first = Serial.kprintf input fuel address (word gdt_address ∷ []) in
      Always-then (lines first ds) (pure g) g
        (Always-lines first ds (Always-kprintf address (word gdt_address ∷ []) (ground arith))
          (all_fit gdt_address tss_address stack_top))
        (λ q room'. (q, refl, room')) p room
