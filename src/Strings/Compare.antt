-- ===== src/Strings/Compare.antt =====
-- `memcmp` and `strcmp`: what their results say of the two blocks.
use native.Mathlib.Decide.{ℕ_discrete}
use lkd.Prelude.{
  ℕ, zero, suc, ◌+◌, ◌≤◌, ◌<◌, ltb, ◌≡◌, ◌≢◌, ◌↔◌, refl, ap, ◌∙◌, arith, Option, some, Bool-cases,
  inl, inr,
}
use lkd.Prelude.Int.{ℤ, pos, negsuc, ◌-ℤ◌}
use lkd.Memory.{Memory, IsBytes}
use lkd.Strings.{char, strcmp_from, strcmp, memcmp_from, memcmp}

-- A C string of `n` characters stands at `s`.
abbrev pub IsString : Memory → ℕ → ℕ → Type 0
IsString m s n = (m (s + n) ≡ 0) × ((i : ℕ) → i < n → m (s + i) ≢ 0)

module _ (m : Memory) (one two : ℕ) where
  -- The blocks agree at every index from `lo` up to `hi`.
  abbrev pub SameBytes : ℕ → ℕ → Type 0
  SameBytes lo hi = (i : ℕ) → lo ≤ i → i < hi → m (one + i) ≡ m (two + i)

  -- The result of comparing the bytes from `lo` up to `hi`: 0 if all agree, else -1 or 1 by the
  -- first index at which they differ.
  pub data Compared (lo hi : ℕ) (result : ℤ) : Type 0 where
    equal : result ≡ pos 0 → SameBytes lo hi → Compared lo hi result
    less :
        (k : ℕ)
        → result ≡ negsuc 0
        → lo ≤ k
        → k < hi
        → SameBytes lo k
        → m (one + k) < m (two + k)
        → Compared lo hi result
    greater :
        (k : ℕ)
        → result ≡ pos 1
        → lo ≤ k
        → k < hi
        → SameBytes lo k
        → m (two + k) < m (one + k)
        → Compared lo hi result

  SameBytes-from :
      (lo hi : ℕ) → m (one + lo) ≡ m (two + lo) → SameBytes (lo + 1) hi → SameBytes lo hi
  SameBytes-from lo hi e same i l h = elim (ℕ_discrete i lo) [
    | yes here ↦ rw here e
    | no apart ↦ same i (omega arith) h
  ]

  Compared-from :
      (lo hi : ℕ) {r : ℤ} → m (one + lo) ≡ m (two + lo) → Compared (lo + 1) hi r → Compared lo hi r
  Compared-from lo hi e (equal z same) = equal z (SameBytes-from lo hi e same)
  Compared-from lo hi e (less k z l h same lt) =
      less k z (omega arith) h (SameBytes-from lo k e same) lt
  Compared-from lo hi e (greater k z l h same lt) =
      greater k z (omega arith) h (SameBytes-from lo k e same) lt

  memcmp_from-Compared :
      (rounds i hi : ℕ) → i + rounds ≡ hi → Compared i hi (memcmp_from m one two i rounds)
  unfolding memcmp_from
  memcmp_from-Compared zero i hi e = equal refl (λ k l h. absurd (omega arith))
  memcmp_from-Compared (suc rounds) i hi e = elim (Bool-cases (ltb (m (one + i)) (m (two + i)))) [
    | inl lt ↦
        rw lt
          (less i refl (omega arith) (omega arith) (λ k l h. absurd (omega arith)) (ground arith))
    | inr ge ↦ elim (Bool-cases (ltb (m (two + i)) (m (one + i)))) [
      | inl gt ↦
          rw (ge, gt)
            (greater i refl (omega arith) (omega arith) (λ k l h. absurd (omega arith))
              (ground arith))
      | inr le ↦
          rw (ge, le)
            (Compared-from i hi (ground arith)
              (memcmp_from-Compared rounds (i + 1) hi (omega arith)))
    ]
  ]

  -- `memcmp` gives 0 exactly when the blocks agree, and else -1 or 1 by the first byte that differs,
  -- read as unsigned.
  pub memcmp-Compared : (size : ℕ) → Compared 0 size (memcmp m one two size)
  unfolding memcmp
  memcmp-Compared size = memcmp_from-Compared size 0 size (omega arith)

char-sub-zero : (a b : ℕ) → a < 256 → b < 256 → (char a -ℤ char b ≡ pos 0) ↔ (a ≡ b)
unfolding ◌-ℤ◌
char-sub-zero a b ha hb = ground arith

module _ (m : Memory) (bytes : IsBytes m) (one two n : ℕ) (string : IsString m one n) where
  abbrev pub Decides : ℕ → Option ℤ → Type 0
  Decides i r = (z : ℤ) × (r ≡ some z) × ((z ≡ pos 0) ↔ SameBytes m one two i (n + 1))

  abbrev difference : ℕ → ℤ
  difference i = char (m (one + i)) -ℤ char (m (two + i))

  difference-zero : (i : ℕ) → (difference i ≡ pos 0) ↔ (m (one + i) ≡ m (two + i))
  difference-zero i = char-sub-zero (m (one + i)) (m (two + i)) (bytes (one + i)) (bytes (two + i))

  strcmp_from-Decides :
      (left i fuel : ℕ) → i + left ≡ n → left < fuel → Decides i (strcmp_from m one two fuel i)
  unfolding strcmp_from
  strcmp_from-Decides left i zero e h = absurd (omega arith)
  strcmp_from-Decides zero i (suc fuel) e h =
      let end : m (one + i) ≡ 0 = ap (λ k. m (one + k)) (omega arith) ∙ string.0 in
      (
        difference i,
        ground arith,
        (
          λ z k lo hi. let here : k ≡ i = omega arith in rw here ((difference-zero i).0 z),
          λ same. (difference-zero i).1 (same i (omega arith) (omega arith)),
        ),
      )
  strcmp_from-Decides (suc left) i (suc fuel) e h =
      let inside : m (one + i) ≢ 0 = string.1 i (omega arith) in
      elim (ℕ_discrete (m (one + i)) (m (two + i))) [
        | yes same ↦
            let rest = strcmp_from-Decides left (i + 1) fuel (omega arith) (omega arith) in
            (
              rest.0,
              ground (arith, rest.1),
              (
                λ z. SameBytes-from m one two i (n + 1) same (rest.2.0 z),
                λ all. rest.2.1 (λ k lo hi. all k (omega arith) hi),
              ),
            )
        | no differ ↦ (
          difference i,
          ground arith,
          (
            λ z. absurd (differ ((difference-zero i).0 z)),
            λ all. absurd (differ (all i (omega arith) (omega arith))),
          ),
        )
      ]

  -- Over memory that holds bytes, where the first string ends, `strcmp` ends within it, and gives 0
  -- exactly when the second one is the same, its end included.
  pub strcmp-Decides : (fuel : ℕ) → n < fuel → Decides 0 (strcmp m one two fuel)
  unfolding strcmp
  strcmp-Decides fuel h = strcmp_from-Decides n 0 fuel (omega arith) h
