-- ===== src/Printing/Readback.antt =====
-- What the number printers write reads back as the number.
use native.Mathlib.Nat.{mod-lt}
use mathlib.Core.Path.{ap₂}
use lkd.Prelude.{
  ℕ, zero, suc, ◌+◌, ◌-◌, ◌/◌, ◌%◌, ◌^◌, ◌≤◌, ◌<◌, List, [], ◌∷◌, ◌++◌, map, Option, ltb, ◌==◌,
  if◌then◌else◌, codes, length, length-append, length-map, length-replicate, replicate, ◌≡◌, refl,
  ap, ◌∙◌, ◌≢◌, arith, passes, passes_lem, ==_iff, true,
}
use native.Mathlib.Decide.{ℕ_discrete}
use lkd.Printing.{Printer, stack_size, write_bytes, hex_glyph, dec_glyph, print_dec, print_hex}
use lkd.Printing.Digits.{
  digits, digits-none, digits-zero, digits-suc, from_digits, from_digits-digits, dec_text,
  max_digits,
}
use lkd.Printing.Stack.{ne→==false}
use lkd.Printing.Numbers.{print_dec_lem, print_hex_lem}

-- The value of a decimal digit's character.
abbrev pub dec_value : ℕ → ℕ
dec_value c = c - b'0'

-- The value of a hexadecimal digit's character, in capitals.
abbrev pub hex_value : ℕ → ℕ
hex_value c = if ltb c b'A' then c - b'0' else c - b'A' + 10

dec_value-glyphs : (ds : List ℕ) → map dec_value (map dec_glyph ds) ≡ ds
dec_value-glyphs [] = refl
dec_value-glyphs (d ∷ ds) =
    let value : dec_value (dec_glyph d) ≡ d = omega arith in rw (value, dec_value-glyphs ds)

dec_text_value : (v : ℕ) → v < 10 ^ max_digits → from_digits 10 (map dec_value (dec_text v)) ≡ v
dec_text_value v h = elim (ℕ_discrete v 0) [ yes z ↦ rw z refl | no nz ↦ from_nonzero nz ]
  where
    from_nonzero : v ≢ 0 → from_digits 10 (map dec_value (dec_text v)) ≡ v
    from_nonzero nz =
        rw (ne→==false v 0 nz, dec_value-glyphs (digits max_digits 10 v))
          (from_digits-digits max_digits 10 v (omega arith) h)

abbrev Below : ℕ → List ℕ → Type 0
Below n [] = Unit {0}
Below n (d ∷ ds) = (d < n) × Below n ds

Below-snoc : (n d : ℕ) (ds : List ℕ) → Below n ds → d < n → Below n (ds ++ (d ∷ []))
Below-snoc n d [] b h = (h, tt)
Below-snoc n d (e ∷ ds) b h = (b.0, Below-snoc n d ds b.1 h)

Below-digits : (fuel base v : ℕ) → 0 < base → Below base (digits fuel base v)
Below-digits zero base v h = rw (digits-none base v) tt
Below-digits (suc fuel) base v h = elim (ℕ_discrete v 0) [
  | yes z ↦ rw (z, digits-zero (suc fuel) base) tt
  | no nz ↦ rw (digits-suc fuel base v nz) (
      Below-snoc base (v % base) (digits fuel base (v / base)) (Below-digits fuel base (v / base) h)
        (mod-lt v h))
]

hex_table : passes (λ d. hex_value (hex_glyph d) == d) 16 ≡ true
unfolding passes
hex_table = refl

hex_value-glyph : (d : ℕ) → d < 16 → hex_value (hex_glyph d) ≡ d
hex_value-glyph d h = (==_iff _ d).0 (passes_lem _ 16 hex_table d h)

hex_value-glyphs : (ds : List ℕ) → Below 16 ds → map hex_value (map hex_glyph ds) ≡ ds
hex_value-glyphs [] b = refl
hex_value-glyphs (d ∷ ds) b = ap₂ ◌∷◌ (hex_value-glyph d b.0) (hex_value-glyphs ds b.1)

-- Leading zeros change no value.
padded_value :
    (n : ℕ) (cs : List ℕ)
    → from_digits 16 (map hex_value (replicate n b'0' ++ cs)) ≡ from_digits 16 (map hex_value cs)
padded_value zero cs = refl
padded_value (suc n) cs = padded_value n cs

module _ {S : Type 0} (write_char : ℕ → S → Option S) (p : Printer S) where
  -- The printer can hold the digits of a number.
  abbrev pub HasRoom : Type 0
  HasRoom = (p.stack_idx + max_digits ≤ stack_size) × (length p.stack ≡ stack_size)

  -- With room on the stack for the digits, a `uint32_t` is printed as text that reads back as it
  -- in decimal, on the stack's old height.
  pub print_dec-reads :
      (v : ℕ)
      → v < 2 ^ 32
      → HasRoom
      → (st : List ℕ) × (cs : List ℕ) × (length st ≡ stack_size)
        × (print_dec write_char v p ≡ write_bytes write_char cs (record p { stack = st }))
        × (from_digits 10 (map dec_value cs) ≡ v)
  print_dec-reads v h room =
      let printed = print_dec_lem write_char v p h room.0 room.1 in
      (printed.0, dec_text v, printed.1, printed.2, dec_text_value v (omega arith))

  -- With room on the stack for the digits, a `uint64_t` is printed as `0x` and text that reads
  -- back as it in hexadecimal, of at least a digit for each four of `bits`, on the stack's old
  -- height.
  pub print_hex-reads :
      (v bits : ℕ)
      → v < 2 ^ 64
      → HasRoom
      → (st : List ℕ) × (cs : List ℕ) × (length st ≡ stack_size)
        × (print_hex write_char v bits p
            ≡ write_bytes write_char (codes "0x" ++ cs) (record p { stack = st }))
        × (from_digits 16 (map hex_value cs) ≡ v)
        × (bits / 4 ≤ length cs)
  print_hex-reads v bits h room =
      let printed = print_hex_lem write_char v bits p h room.0 room.1 in
      let ds : List ℕ = digits max_digits 16 v in
      let pad : List ℕ = replicate (bits / 4 - length ds) b'0' in
      (
        printed.0,
        pad ++ map hex_glyph ds,
        printed.1,
        printed.2,
        padded_value (bits / 4 - length ds) (map hex_glyph ds)
            ∙ ap (from_digits 16) (hex_value-glyphs ds (Below-digits max_digits 16 v (omega arith)))
            ∙ from_digits-digits max_digits 16 v (omega arith) (omega arith),
        omega (
          arith,
          length-append pad (map hex_glyph ds),
          length-map ds hex_glyph,
          length-replicate {A = ℕ} (bits / 4 - length ds) b'0',
        ),
      )
