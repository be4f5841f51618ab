-- ===== src/Printing/Tests.antt =====
-- A device that keeps the characters it is given.
use lkd.Printing.Digits.{digits}
use lkd.Printing.Render.{Writes}
use lkd.Printing.Conversions.{rendered}
use lkd.Printing.Rendered.{kprintf-Writes}
use lkd.Prelude.{
  ℕ, List, [], ◌∷◌, ◌++◌, map, Option, some, true, length, replicate, codes, ◌≡◌, refl, arith,
}
use lkd.Printing.{
  Printer, word, stack_size, push_stack, pop_stack, push_digits, write_bytes, write_str,
  write_digits, write_repeated, print_dec, print_hex,
}
use lkd.Printing.Format.{kprintf, directive, next_word}
use lkd.Printing.Digits.{from_digits}
use lkd.Printing.Readback.{dec_value, print_dec-reads}

abbrev log : ℕ → List ℕ → Option (List ℕ)
log ch s = some (s ++ ch ∷ [])

abbrev screen : Printer (List ℕ)
screen = record { device = []; stack = replicate 256 0; stack_idx = 0 }

abbrev printed : Option (Unit {0} × Printer (List ℕ)) → Option (List ℕ)
printed r = elim r [ Option.none ↦ Option.none | some (u, p) ↦ some p.device ]

kprintf-formats :
    printed (kprintf log true (codes "%d %x%%%z\n") (word 1090 ∷ word 255 ∷ []) screen)
    ≡ some (codes "1090 0x000000FF%[WARNING] Invalid printing format!\nz\n")
unfolding kprintf directive next_word print_dec print_hex push_digits push_stack pop_stack
    write_digits write_repeated write_str write_bytes
kprintf-formats = refl

print_dec-reads_example :
    (st : List ℕ) × (cs : List ℕ) × (length st ≡ stack_size)
    × (print_dec log 1090 screen ≡ write_bytes log cs (record screen { stack = st }))
    × (from_digits 10 (map dec_value cs) ≡ 1090)
print_dec-reads_example = print_dec-reads log screen 1090 (omega arith) (omega arith)

rendered_text :
    rendered true (codes "%d|%x%%") (word 10 ∷ word 255 ∷ []) ≡ some (codes "10|0x000000FF%")
unfolding rendered digits
rendered_text = refl

kprintf-Writes_example :
    Writes log
      (codes "10|0x000000FF%")
      (kprintf log true (codes "%d|%x%%") (word 10 ∷ word 255 ∷ []))
kprintf-Writes_example =
    kprintf-Writes log true (codes "%d|%x%%") (word 10 ∷ word 255 ∷ []) (codes "10|0x000000FF%")
      rendered_text
