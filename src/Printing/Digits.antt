-- ===== src/Printing/Digits.antt =====
-- The digits of a number, as text, independent of the printers: what is read back from them.
use native.Mathlib.Nat.{pow-zero, pow-suc, div-add-mod, div-lt_iff_lt-mul}
use mathlib.Core.List.{foldl}
use lkd.Prelude.{
  ℕ, zero, suc, ◌+◌, ◌-◌, ◌*◌, ◌/◌, ◌%◌, ◌^◌, ◌≤◌, ◌<◌, List, [], ◌∷◌, ◌++◌, map, ◌==◌,
  if◌then◌else◌, codes, length, length-append, replicate, ◌≡◌, ◌≢◌, refl, ap, ◌∙◌, arith,
}
use native.Mathlib.Decide.{ℕ_discrete}
use lkd.Printing.{hex_glyph, dec_glyph}

-- The digits of `v`, the highest first, as far as `fuel` goes.
unfoldable pub digits : ℕ → ℕ → ℕ → List ℕ
digits zero base v = []
digits (suc fuel) base v =
    let rest = digits fuel base (v / base) ++ (v % base ∷ []) in if v == 0 then [] else rest

-- The number that digits stand for, the highest first.
abbrev pub from_digits : ℕ → List ℕ → ℕ
from_digits base ds = foldl (λ acc d. acc * base + d) 0 ds

-- No 64-bit number has more digits, in base 10 or 16, than the printers have rounds for.
abbrev pub max_digits : ℕ
max_digits = 19

-- The text that `print_dec` is to write.
abbrev pub dec_text : ℕ → List ℕ
dec_text v = if v == 0 then b'0' ∷ [] else map dec_glyph (digits max_digits 10 v)

-- The text that `print_hex` is to write: at least `bits / 4` digits.
abbrev pub hex_text : ℕ → ℕ → List ℕ
hex_text v bits =
    let ds = digits max_digits 16 v in
    codes "0x" ++ replicate (bits / 4 - length ds) b'0' ++ map hex_glyph ds

foldl-snoc :
    (base acc d : ℕ) (ds : List ℕ)
    → foldl (λ a e. a * base + e) acc (ds ++ (d ∷ []))
      ≡ foldl (λ a e. a * base + e) acc ds * base + d
foldl-snoc base acc d [] = refl
foldl-snoc base acc d (e ∷ ds) = foldl-snoc base (acc * base + e) d ds

pub from_digits-digits :
    (fuel base v : ℕ) → 1 < base → v < base ^ fuel → from_digits base (digits fuel base v) ≡ v
unfolding digits
from_digits-digits zero base v b h = omega (arith, pow-zero base)
from_digits-digits (suc fuel) base v b h = elim (ℕ_discrete v 0) [
  | yes z ↦ rw z refl
  | no nz ↦
      let smaller : v / base < base ^ fuel =
        (div-lt_iff_lt-mul {x = v} {y = base ^ fuel} (omega arith)).1
          (rw (← pow-suc base fuel) h) in
      let value : from_digits base (digits fuel base (v / base) ++ (v % base ∷ [])) ≡ v =
        foldl-snoc base 0 (v % base) (digits fuel base (v / base))
        ∙ omega (
          arith,
          ap (λ (t : ℕ). t * base) (from_digits-digits fuel base (v / base) b smaller),
          div-add-mod v base,
        ) in
      ground (arith, value)
]

-- The digits in reverse: those of the quotient, then the remainder.
pub digits-suc :
    (fuel base v : ℕ)
    → v ≢ 0
    → digits (suc fuel) base v ≡ digits fuel base (v / base) ++ (v % base ∷ [])
unfolding digits
digits-suc fuel base v nz = ground arith

pub digits-zero : (fuel base : ℕ) → digits fuel base 0 ≡ []
unfolding digits
digits-zero zero base = refl
digits-zero (suc fuel) base = refl

pub length-digits-le : (fuel base v : ℕ) → length (digits fuel base v) ≤ fuel
unfolding digits
length-digits-le zero base v = omega arith
length-digits-le (suc fuel) base v = ground (
  arith,
  length-digits-le fuel base (v / base),
  length-append (digits fuel base (v / base)) (v % base ∷ []),
)

pub digits-none : (base v : ℕ) → digits 0 base v ≡ []
unfolding digits
digits-none base v = refl
