-- ===== src/Kmalloc/Power.antt =====
-- Where the loop of `compute_power` ends.
use native.Mathlib.Nat.{pow-suc}
use native.Mathlib.Decide.{dec_lt}
use lkd.Prelude.{
  ℕ, zero, suc, ◌+◌, ◌*◌, ◌^◌, ◌≤◌, ◌<◌, none, some, u32, ◌≡◌, refl, ap, arith, ◌⊎◌, inl, inr,
  ◌<<<◌, ◌∙◌,
}
use lkd.Bits.{two-pow-lt}
use lkd.Kmalloc.{compute_power_from, compute_power}

-- The least power of two from 16 on that holds the request.
abbrev pub Least : ℕ → ℕ → Type 0
Least bytes k = (bytes ≤ 2 ^ k) × (16 ≤ 2 ^ k) × ((2 ^ k ≡ 16) ⊎ (2 ^ k < 2 * bytes))

-- One round of the loop, and the double of a power of two below 2^31.
again :
    (fuel bytes out : ℕ)
    → out < bytes
    → compute_power_from (suc fuel) bytes out ≡ compute_power_from fuel bytes (u32 (out <<< 1))
unfolding compute_power_from
again fuel bytes out h = ground arith

stop : (fuel bytes out : ℕ) → ¬ (out < bytes) → compute_power_from (suc fuel) bytes out ≡ some out
unfolding compute_power_from
stop fuel bytes out h = ground arith

double : (j : ℕ) → j < 31 → u32 ((2 ^ j) <<< 1) ≡ 2 ^ suc j
double j h = omega (arith, pow-suc 2 j, two-pow-lt (suc j) 32 (omega arith))

below_31 : (j bytes : ℕ) → bytes ≤ 2 ^ 31 → 2 ^ j < bytes → j < 32 → j < 31
below_31 j bytes small more lt = elim (dec_lt j 31) [
  | yes h ↦ h
  | no h ↦
      let last : j ≡ 31 = omega arith in
      let power = ap (λ (t : ℕ). 2 ^ t) last in absurd (omega (arith, power))
]

ends_from :
    (fuel j bytes : ℕ)
    → bytes ≤ 2 ^ 31
    → j + fuel ≡ 32
    → j < 32
    → (2 ^ j ≡ 16) ⊎ (2 ^ j < 2 * bytes)
    → 16 ≤ 2 ^ j
    → (k : ℕ) × (compute_power_from fuel bytes (2 ^ j) ≡ some (2 ^ k)) × Least bytes k
ends_from zero j bytes small e lt half low = absurd (omega arith)
ends_from (suc fuel) j bytes small e lt half low = elim (dec_lt (2 ^ j) bytes) [
  | no enough ↦ (j, stop fuel bytes (2 ^ j) enough, (omega arith, low, half))
  | yes more ↦
      let h = below_31 j bytes small more lt in
      let (k, found, least) =
        ends_from fuel (suc j) bytes small (omega arith) (omega arith)
          (inr (omega (arith, pow-suc 2 j))) (omega (arith, pow-suc 2 j)) in
      (
        k,
        again fuel bytes (2 ^ j) more ∙ ap (compute_power_from fuel bytes) (double j h) ∙ found,
        least,
      )
]

-- A request of at most 2^31 bytes gets the least power of two from 16 on that holds it, within 28
-- rounds of the loop.
pub compute_power-Least :
    (bytes : ℕ) → bytes ≤ 2 ^ 31 → (k : ℕ) × (compute_power 28 bytes ≡ some (2 ^ k)) × Least bytes k
unfolding compute_power
compute_power-Least bytes h = ends_from 28 4 bytes h refl (omega arith) (inl refl) (omega arith)

zero_loops : (fuel bytes : ℕ) → 0 < bytes → compute_power_from fuel bytes 0 ≡ none
unfolding compute_power_from
zero_loops zero bytes h = refl
zero_loops (suc fuel) bytes h = again fuel bytes 0 h ∙ zero_loops fuel bytes h

loops_from :
    (fuel j bytes : ℕ) → 2 ^ 31 < bytes → j ≤ 31 → compute_power_from fuel bytes (2 ^ j) ≡ none
unfolding compute_power_from
loops_from zero j bytes big h = refl
loops_from (suc fuel) j bytes big h = elim (dec_lt j 31) [
  | yes below ↦
      again fuel bytes (2 ^ j) (omega (arith, two-pow-lt j 31 below))
      ∙ ap (compute_power_from fuel bytes) (double j below)
      ∙ loops_from fuel (suc j) bytes big (omega arith)
  | no top ↦
      let last : j ≡ 31 = omega arith in
      let power = ap (λ (t : ℕ). 2 ^ t) last in
      let wrapped : u32 ((2 ^ j) <<< 1) ≡ 0 = omega (arith, power) in
      again fuel bytes (2 ^ j) (omega (arith, power))
      ∙ ap (compute_power_from fuel bytes) wrapped
      ∙ zero_loops fuel bytes (omega arith)
]

-- For a request of more than 2^31 bytes the loop never ends: the size wraps around to 0.
pub compute_power_loops : (fuel bytes : ℕ) → 2 ^ 31 < bytes → compute_power fuel bytes ≡ none
unfolding compute_power
compute_power_loops fuel bytes h = loops_from fuel 4 bytes h (omega arith)
