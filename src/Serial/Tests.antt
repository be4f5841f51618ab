-- ===== src/Serial/Tests.antt =====
-- A line that is ready at every second poll.
use lkd.Prelude.{List, ℕ, ◌∷◌, true, refl}
use lkd.Printing.{word, long, text}
use lkd.Printing.Conversions.{rendered}
use lkd.Serial.{kprintf}
use lkd.Serial.Lines.{CanPrint, Printed, kprintf-fits}
use lkd.Prelude.{ℕ, ◌%◌, [], some, false, replicate, codes, ◌≡◌, arith, if◌then◌else◌, ◌==◌}
use native.Mathlib.Decide.{ℕ_discrete}
use lkd.Printing.{Printer}
use lkd.Serial.{Serial}
use lkd.Serial.Sent.{Answers}

abbrev ready : ℕ → ℕ → ℕ
ready n port = if n % 2 == 0 then 0x60 else 0

abbrev line : Printer Serial
line = record {
  device = record { init = false; ports = record { written = []; reads = 1 } };
  stack = replicate 256 0;
  stack_idx = 0;
}

ready-Answers : Answers ready 2
ready-Answers n = elim (ℕ_discrete (n % 2) 0) [
  | yes even ↦ (0, omega arith, ground (arith, even))
  | no odd ↦ (1, omega arith, ground (arith, odd))
]

line_room : CanPrint ready 2 line
line_room = omega arith

kprintf-fits_example :
    (cs : List ℕ) × (rendered true
        (codes "%s: %X of %d\n")
        (text (codes "map") ∷ long 4096 ∷ word 3 ∷ [])
      ≡ some cs)
    × Printed ready 2 cs tt line (
        kprintf ready 2
          (codes "%s: %X of %d\n")
          (text (codes "map") ∷ long 4096 ∷ word 3 ∷ [])
          line)
kprintf-fits_example =
    kprintf-fits ready 2 ready-Answers line line_room (codes "%s: %X of %d\n")
      (text (codes "map") ∷ long 4096 ∷ word 3 ∷ []) refl
