-- ===== src/Bits/Step.antt =====
-- `&` and `|` digit by digit. The native operations compute on their arguments' digits with a
-- supply of rounds; a supply that covers the first argument can be cut down to any other that
-- does.
use Prim.Native.Nat.{digits, bitwise, bit_and-bitwise, bit_or-bitwise}
use native.Mathlib.Decide.{ℕ_discrete}
use lkd.Prelude.{
  ℕ, zero, suc, ◌+◌, ◌*◌, ◌/◌, ◌%◌, ◌≤◌, min, max, bit_and, bit_or, ◌≡◌, refl, ap, ◌∙◌, arith,
}

module _ (rest : ℕ → ℕ) (op : ℕ → ℕ → ℕ) where
  spare_round :
      (rounds x y : ℕ) → x ≤ rounds → digits rest op (suc rounds) x y ≡ digits rest op rounds x y
  spare_round zero zero y h = refl
  spare_round zero (suc x) y h = absurd (omega arith)
  spare_round (suc rounds) zero y h = refl
  spare_round (suc rounds) (suc x) y h =
      let shorter = spare_round rounds (suc x / 2) (y / 2) (omega arith) in
      ap (λ (t : ℕ). t * 2 + op (suc x % 2) (y % 2)) shorter

  spare_rounds :
      (more few x y : ℕ) → x ≤ few → few ≤ more → digits rest op more x y ≡ digits rest op few x y
  spare_rounds zero zero x y h le = refl
  spare_rounds zero (suc few) x y h le = absurd (omega arith)
  spare_rounds (suc more) few x y h le = elim (ℕ_discrete (suc more) few) [
    | yes same ↦ ap (λ (t : ℕ). digits rest op t x y) same
    | no differ ↦ spare_round more x y (omega arith) ∙ spare_rounds more few x y h (omega arith)
  ]

  bitwise_step :
      (x y : ℕ)
      → bitwise rest op (suc x) y ≡ bitwise rest op (suc x / 2) (y / 2) * 2 + op (suc x % 2) (y % 2)
  bitwise_step x y =
      let cut = spare_rounds x (suc x / 2) (suc x / 2) (y / 2) (omega arith) (omega arith) in
      ap (λ (t : ℕ). t * 2 + op (suc x % 2) (y % 2)) cut

pub bit_or_step : (x y : ℕ) → bit_or x y ≡ bit_or (x / 2) (y / 2) * 2 + max (x % 2) (y % 2)
bit_or_step zero y = simp bit_or-bitwise (omega arith)
bit_or_step (suc x) y = simp bit_or-bitwise (bitwise_step (λ digit. digit) max x y)

pub bit_and_step : (x y : ℕ) → bit_and x y ≡ bit_and (x / 2) (y / 2) * 2 + min (x % 2) (y % 2)
bit_and_step zero y = simp bit_and-bitwise (omega arith)
bit_and_step (suc x) y = simp bit_and-bitwise (bitwise_step (λ digit. 0) min x y)

-- Induction along the halves of a number, which are what is left of it without its lowest digit.
halves_from :
    (P : ℕ → Type 0) → P 0 → ((a : ℕ) → P (suc a / 2) → P (suc a)) → (n a : ℕ) → a ≤ n → P a
halves_from P base step n zero h = base
halves_from P base step zero (suc a) h = absurd (omega arith)
halves_from P base step (suc n) (suc a) h =
    step a (halves_from P base step n (suc a / 2) (omega arith))

pub halves : (P : ℕ → Type 0) → P 0 → ((a : ℕ) → P (suc a / 2) → P (suc a)) → (a : ℕ) → P a
halves P base step a = halves_from P base step a a (omega arith)
