-- ===== src/Bits.antt =====
-- The binary digits of a word, and what `&` and `|` do to them.
pub mod Step
pub mod Fields
use Step.{bit_and_step, bit_or_step}
use Fields.{bit_and-zero, mod-twice}
use native.Mathlib.Nat.{pow-suc, one-le-pow}
use lkd.Prelude.{
  ℕ, zero, suc, ◌+◌, ◌-◌, ◌*◌, ◌/◌, ◌%◌, ◌^◌, ◌≤◌, ◌<◌, min, max, bit_and, bit_or, ◌≡◌, refl, ap,
  arith, ◌==◌, if◌then◌else◌,
}

-- The digit of weight `2 ^ k`.
pub bit : ℕ → ℕ → ℕ
bit zero a = a % 2
bit (suc k) a = bit k (a / 2)

pub bit-lt : (k a : ℕ) → bit k a < 2
unfolding bit
bit-lt zero a = omega arith
bit-lt (suc k) a = bit-lt k (a / 2)

pub bit-bit_and : (k a b : ℕ) → bit k (bit_and a b) ≡ min (bit k a) (bit k b)
unfolding bit
bit-bit_and zero a b = omega (arith, bit_and_step a b)
bit-bit_and (suc k) a b =
    rw (← bit-bit_and k (a / 2) (b / 2)) (ap (bit k) (omega (arith, bit_and_step a b)))

pub bit-bit_or : (k a b : ℕ) → bit k (bit_or a b) ≡ max (bit k a) (bit k b)
unfolding bit
bit-bit_or zero a b = omega (arith, bit_or_step a b)
bit-bit_or (suc k) a b =
    rw (← bit-bit_or k (a / 2) (b / 2)) (ap (bit k) (omega (arith, bit_or_step a b)))

pub bit-zero : (k : ℕ) → bit k 0 ≡ 0
unfolding bit
bit-zero zero = refl
bit-zero (suc k) = bit-zero k

-- The highest bit of the kernel's first address.
pub bit-kernel_offset : bit 31 0xC0000000 ≡ 1
unfolding bit
bit-kernel_offset = refl

pub bit-pow : (k j : ℕ) → bit j (2 ^ k) ≡ (if j == k then 1 else 0)
unfolding bit
bit-pow zero zero = refl
bit-pow zero (suc j) = ground (arith, bit-zero j)
bit-pow (suc k) zero = ground (arith, pow-suc 2 k)
bit-pow (suc k) (suc j) =
    let half : 2 ^ suc k / 2 ≡ 2 ^ k = omega (arith, pow-suc 2 k) in
    rw half (ground (arith, bit-pow k j))

-- Testing one bit: `a & (1 << k)`.
pub bit_and-pow : (k a : ℕ) → bit_and a (2 ^ k) ≡ bit k a * 2 ^ k
unfolding bit
bit_and-pow zero a = omega (arith, bit_and_step a 1, bit_and-zero (a / 2))
bit_and-pow (suc k) a = omega (
  arith,
  bit_and_step a (2 ^ suc k),
  ap (λ (t : ℕ). bit_and (a / 2) t) (half k),
  bit_and-pow k (a / 2),
  pow-suc 2 k,
  ap (λ (t : ℕ). bit k (a / 2) * t) (pow-suc 2 k),
)
  where
    half : (k : ℕ) → 2 ^ suc k / 2 ≡ 2 ^ k
    half k = omega (arith, pow-suc 2 k)

-- A cast to `n` bits keeps the digits below `n`.
pub bit-mod : (k n a : ℕ) → k < n → bit k (a % 2 ^ n) ≡ bit k a
unfolding bit
bit-mod k zero a h = absurd (omega arith)
bit-mod zero (suc n) a h = omega (arith, mod-twice n a)
bit-mod (suc k) (suc n) a h =
    let half : a % 2 ^ suc n / 2 ≡ a / 2 % 2 ^ n = omega (arith, mod-twice n a) in
    rw half (bit-mod k n (a / 2) (omega arith))

-- The complement in `n` bits flips each of them.
pub bit-complement : (k n a : ℕ) → k < n → a < 2 ^ n → bit k (2 ^ n - 1 - a) ≡ 1 - bit k a
unfolding bit
bit-complement k zero a h l = absurd (omega arith)
bit-complement zero (suc n) a h l = omega (arith, pow-suc 2 n)
bit-complement (suc k) (suc n) a h l =
    let half : (2 ^ suc n - 1 - a) / 2 ≡ 2 ^ n - 1 - a / 2 = omega (arith, pow-suc 2 n) in
    rw half (bit-complement k n (a / 2) (omega arith) (omega (arith, pow-suc 2 n)))

pub two-pow-lt : (k n : ℕ) → k < n → 2 ^ k < 2 ^ n
two-pow-lt k zero h = absurd (omega arith)
two-pow-lt zero (suc n) h = omega (arith, pow-suc 2 n, one-le-pow n 2)
two-pow-lt (suc k) (suc n) h = omega (arith, pow-suc 2 n, pow-suc 2 k, two-pow-lt k n (omega arith))

-- A byte is 0 when its eight digits are.
pub byte-zero : (v : ℕ) → v < 256 → ((k : ℕ) → k < 8 → bit k v ≡ 0) → v ≡ 0
unfolding bit
byte-zero v lt h = omega (
  arith,
  h 0 (omega arith),
  h 1 (omega arith),
  h 2 (omega arith),
  h 3 (omega arith),
  h 4 (omega arith),
  h 5 (omega arith),
  h 6 (omega arith),
  h 7 (omega arith),
)
