-- ===== src/Bits/Fields.antt =====
-- `&` and `|` on words that are made of fields: `|` of disjoint fields is a sum, and a mask of low
-- or of high ones is a remainder or a quotient.
use Prim.Native.Nat.{bit_or-bitwise}
use native.Mathlib.Nat.{pow-suc, one-le-pow, div-div-eq-div-mul, div-add-mod}
use lkd.Prelude.{
  ℕ, zero, suc, ◌+◌, ◌-◌, ◌*◌, ◌/◌, ◌%◌, ◌^◌, ◌<◌, bit_and, bit_or, ◌≡◌, refl, sym, ap, arith, ◌∙◌,
}
use lkd.Bits.Step.{bit_and_step, bit_or_step, halves}

pub bit_or-zero : (a : ℕ) → bit_or a 0 ≡ a
bit_or-zero = halves (λ a. bit_or a 0 ≡ a) refl λ a half. omega (arith, bit_or_step (suc a) 0, half)

zero-bit_or : (b : ℕ) → bit_or 0 b ≡ b
zero-bit_or b = bit_or-bitwise 0 b

pub bit_and-zero : (a : ℕ) → bit_and a 0 ≡ 0
bit_and-zero =
    halves (λ a. bit_and a 0 ≡ 0) refl λ a half. omega (arith, bit_and_step (suc a) 0, half)

shifted-twice : (q k : ℕ) → q * 2 ^ suc k ≡ 2 * (q * 2 ^ k)
shifted-twice q k = omega (arith, ap (λ (t : ℕ). q * t) (pow-suc 2 k))

-- A high field and a low one.
pub bit_or-high_low : (k q r : ℕ) → r < 2 ^ k → bit_or (q * 2 ^ k) r ≡ q * 2 ^ k + r
bit_or-high_low zero q r h =
    let low : r ≡ 0 = omega arith in rw low (bit_or-zero (q * 1) ∙ omega arith)
bit_or-high_low (suc k) q r h = ground (
  arith,
  shifted-twice q k,
  pow-suc 2 k,
  bit_or_step (q * 2 ^ suc k) r,
  bit_or-high_low k q (r / 2) (omega (arith, pow-suc 2 k)),
)

-- The low field first.
pub bit_or-low_high : (k q r : ℕ) → r < 2 ^ k → bit_or r (q * 2 ^ k) ≡ q * 2 ^ k + r
bit_or-low_high zero q r h =
    let low : r ≡ 0 = omega arith in
    let high : q * 2 ^ 0 ≡ q = omega arith in rw (low, high) (omega (arith, zero-bit_or q))
bit_or-low_high (suc k) q r h = ground (
  arith,
  shifted-twice q k,
  pow-suc 2 k,
  bit_or_step r (q * 2 ^ suc k),
  bit_or-low_high k q (r / 2) (omega (arith, pow-suc 2 k)),
)

div-twice : (k a : ℕ) → a / 2 ^ suc k ≡ a / 2 / 2 ^ k
div-twice k a =
    ap (λ (t : ℕ). a / t) (omega (arith, pow-suc 2 k)) ∙ sym (div-div-eq-div-mul a 2 (2 ^ k))

pub mod-twice : (k a : ℕ) → a % 2 ^ suc k ≡ a / 2 % 2 ^ k * 2 + a % 2
mod-twice k a = omega (
  arith,
  div-add-mod a (2 ^ suc k),
  div-add-mod (a / 2) (2 ^ k),
  ap (λ (t : ℕ). 2 ^ suc k * t) (div-twice k a),
  ap (λ (t : ℕ). t * (a / 2 / 2 ^ k)) (pow-suc 2 k),
)

-- A mask whose low `k` digits are 0 reads the word above them.
pub bit_and-high : (k a h : ℕ) → bit_and a (h * 2 ^ k) ≡ bit_and (a / 2 ^ k) h * 2 ^ k
bit_and-high zero a h =
    let mask : h * 2 ^ 0 ≡ h = omega arith in
    let word : a / 2 ^ 0 ≡ a = omega arith in rw (mask, word) (omega arith)
bit_and-high (suc k) a h = ground (
  arith,
  shifted-twice h k,
  shifted-twice (bit_and (a / 2 / 2 ^ k) h) k,
  bit_and_step a (h * 2 ^ suc k),
  bit_and-high k (a / 2) h,
  div-twice k a,
)

-- A mask of `k` low ones is a remainder.
pub bit_and-low : (k a : ℕ) → bit_and a (2 ^ k - 1) ≡ a % 2 ^ k
bit_and-low zero a = omega (arith, bit_and-zero a)
bit_and-low (suc k) a = ground (
  arith,
  pow-suc 2 k,
  one-le-pow k 2,
  bit_and_step a (2 ^ suc k - 1),
  bit_and-low k (a / 2),
  mod-twice k a,
)
