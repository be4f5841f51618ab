-- ===== src/Main/Lines.antt =====
-- The lines that `kmain` writes on the serial line and on the screen, and how its calls follow on each
-- other.
use lkd.Prelude.{ℕ, List, [], ◌∷◌, some, length, ◌≡◌, refl, arith}
use lkd.Printing
use lkd.Printing.{Printer, M, word, long}
use lkd.Serial.{Serial}
use lkd.Serial.Sent.{Answers, write_str-sends}
use lkd.Serial.Lines.{CanPrint}
use lkd.Vga
use lkd.Vga.{Vga, write_char}
use lkd.Main.{Machine, B, ◌>>=◌, on_serial, say}

-- The screen behind the characters of a line.
unfoldable pub shown : List ℕ → Vga → Vga
shown [] v = v
shown (c ∷ cs) v = shown cs (write_char c v)

write_bytes-shown :
    (cs : List ℕ) (p : Printer Vga)
    → Printing.write_bytes Vga.write_char? cs p ≡ some (tt, record p { device = shown cs p.device })
unfolding Printing.write_bytes shown
write_bytes-shown [] p = refl
write_bytes-shown (c ∷ cs) p = write_bytes-shown cs (record p { device = write_char c p.device })

write_str-shown :
    (cs : List ℕ) (p : Printer Vga)
    → Vga.write_str cs p ≡ some (length cs, record p { device = shown cs p.device })
unfolding Printing.write_str
write_str-shown cs p = ground (arith, write_bytes-shown cs p)

-- A call that ends hands its result on.
pub then_ends :
    {A C : Type 0} (m : B A) (f : A → B C) (b b' : Machine) (a : A)
    → m b ≡ some (a, b')
    → (m >>= f) b ≡ f a b'
then_ends m f b b' a e = ground (arith, e)

pub on_serial_ends :
    {A : Type 0} (m : M Serial A) (b : Machine) (a : A) (p : Printer Serial)
    → m b.kernel.serial ≡ some (a, p)
    → on_serial m b ≡ some (a, record b { kernel = record (b.kernel) { serial = p } })
on_serial_ends m b a p e = ground (arith, e)

-- The machine with a serial line and a screen that have changed.
abbrev pub printed : Machine → Printer Serial → Vga → Machine
printed b p v = record b {
  kernel = record (b.kernel) { serial = p };
  screen = record (b.screen) { device = v };
}

module _ (input : ℕ → ℕ → ℕ) (fuel : ℕ) (answers : Answers input fuel) where
  pub say_lem :
      (line : List ℕ) (b : Machine)
      → CanPrint input fuel b.kernel.serial
      → (d : Serial) × (say input fuel line b
          ≡ some (
            tt,
            printed b (record (b.kernel.serial) { device = d }) (shown line b.screen.device),
          ))
  say_lem line b room =
      let (d, out, sends) = write_str-sends input fuel answers line b.kernel.serial in
      (d, ground (arith, out, write_str-shown line b.screen))
