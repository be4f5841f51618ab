-- ===== src/Bitmap/Scan.antt =====
-- `set_first_free` and `is_empty`, the two loops over a bitmap.
use lkd.Prelude.{
  ℕ, zero, suc, ◌+◌, ◌*◌, ◌/◌, ◌%◌, ◌≤◌, ◌<◌, true, false, Option, none, some, ◌==◌, if◌then◌else◌,
  ◌≡◌, refl, sym, arith, ◌↔◌, Option-cases, Bool-cases, inl, inr,
}
use mathlib.Core.Path.{subst}
use lkd.Bits.{bit, bit-lt, bit-zero, byte-zero}
use lkd.Memory.{Memory, IsBytes}
use lkd.Bitmap.{Bitmap, get_bit, set_bit, first_free_from, set_first_free, is_empty_from, is_empty}
use lkd.Bitmap.Laws.{get_bit_lem, get_bit-set_bit}

module _ (m : Memory) (b : Bitmap) where
  -- `k` is the lowest clear bit from `lo` on, and lies below `hi`.
  abbrev pub IsFirstFree : ℕ → ℕ → ℕ → Type 0
  IsFirstFree lo hi k =
      (lo ≤ k)
      × (k < hi)
      × (get_bit m b k ≡ false)
      × ((j : ℕ) → lo ≤ j → j < k → get_bit m b j ≡ true)

  pub first_free_from-some :
      (rounds i k : ℕ) → first_free_from m b rounds i ≡ some k → IsFirstFree i (i + rounds) k
  unfolding first_free_from
  first_free_from-some zero i k e = ground arith
  first_free_from-some (suc rounds) i k e = elim (Bool-cases (get_bit m b i)) [
    | inl used ↦
        let rest : IsFirstFree (i + 1) (i + 1 + rounds) k =
          first_free_from-some rounds (i + 1) k (ground arith) in
        (omega arith, omega arith, rest.2, λ j lo hi. ground (arith, rest.3 j))
    | inr free ↦
        let here : k ≡ i = ground arith in
        (omega arith, omega arith, rw here free, λ j lo hi. absurd (omega arith))
  ]

  first_free_from-none :
      (rounds i j : ℕ)
      → i ≤ j
      → j < i + rounds
      → first_free_from m b rounds i ≡ none
      → get_bit m b j ≡ true
  unfolding first_free_from
  first_free_from-none zero i j lo hi e = absurd (omega arith)
  first_free_from-none (suc rounds) i j lo hi e =
      ground (arith, first_free_from-none rounds (i + 1) j)

  -- What a result of `set_first_free` says of the memory before and after it.
  abbrev pub FirstFree : Option ℕ × Memory → Type 0
  FirstFree (none, m') = (m' ≡ m) × ((j : ℕ) → j < b.size → get_bit m b j ≡ true)
  FirstFree (some k, m') =
      IsFirstFree 0 b.size k × ((j : ℕ) → get_bit m' b j ≡ (if k == j then true else get_bit m b j))

  -- `set_first_free` gives -1 and changes nothing only if the bits below `size` are all set; else
  -- it gives the lowest clear one of them, and sets that and no other.
  pub set_first_free_lem : FirstFree (set_first_free m b)
  unfolding set_first_free
  set_first_free_lem = elim (Option-cases (first_free_from m b b.size 0)) [
    | inl e ↦
        let result : set_first_free m b ≡ (none, m) = rw (e, set_first_free) in
        subst FirstFree (sym result)
          (refl, λ j h. first_free_from-none b.size 0 j (omega arith) (omega arith) e)
    | inr (k, e) ↦
        let result : set_first_free m b ≡ (some k, (set_bit m b k).1) = rw (e, set_first_free) in
        let first : IsFirstFree 0 (0 + b.size) k = first_free_from-some b.size 0 k e in
        subst FirstFree (sym result) (
          (omega arith, omega arith, first.2, first.3),
          λ j. ground (arith, get_bit-set_bit m b k j),
        )
  ]

  is_empty_from-zero :
      (rounds i k : ℕ)
      → i ≤ k
      → k < i + rounds
      → is_empty_from m b rounds i ≡ true
      → m (b.ptr + k) ≡ 0
  unfolding is_empty_from
  is_empty_from-zero zero i k lo hi e = absurd (omega arith)
  is_empty_from-zero (suc rounds) i k lo hi e = ground (arith, is_empty_from-zero rounds (i + 1) k)

  is_empty_from-true :
      (rounds i : ℕ)
      → ((k : ℕ) → i ≤ k → k < i + rounds → m (b.ptr + k) ≡ 0)
      → is_empty_from m b rounds i ≡ true
  unfolding is_empty_from
  is_empty_from-true zero i h = refl
  is_empty_from-true (suc rounds) i h =
      ground
        (arith, h i, is_empty_from-true rounds (i + 1) (λ k lo hi. h k (omega arith) (omega arith)))

  -- The number of bit `k` of byte `i`.
  bit-of_byte :
      (i k : ℕ) → i < b.size → k < 8 → get_bit m b (8 * i + k) ≡ false → bit k (m (b.ptr + i)) ≡ 0
  bit-of_byte i k hi hk e =
      let quotient : (8 * i + k) / 8 ≡ i = omega arith in
      let remainder : (8 * i + k) % 8 ≡ k = omega arith in
      ground (arith, get_bit_lem m b (8 * i + k), bit-lt k (m (b.ptr + i)))

  -- Over memory that holds bytes, `is_empty` holds exactly when no bit is set.
  pub is_empty_iff : IsBytes m → (is_empty m b ≡ true) ↔ ((i : ℕ) → get_bit m b i ≡ false)
  unfolding is_empty
  is_empty_iff bytes = (
    λ e i. ground (arith, get_bit_lem m b i, is_empty_from-zero b.size 0 (i / 8), bit-zero (i % 8)),
    λ h. is_empty_from-true b.size 0 λ i lo hi.
        byte-zero (m (b.ptr + i)) (bytes (b.ptr + i))
          λ k lt. bit-of_byte i k (omega arith) lt (h (8 * i + k)),
  )
