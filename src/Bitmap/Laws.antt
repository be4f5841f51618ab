-- ===== src/Bitmap/Laws.antt =====
-- `set_bit` and `clear_bit` as updates of a set of bit numbers.
use lkd.Prelude.{
  ℕ, ◌+◌, ◌/◌, ◌%◌, ◌^◌, ◌≤◌, ◌<◌, bit_and, bit_or, Bool, true, false, not, leb, ◌==◌,
  if◌then◌else◌, ◌<<<◌, complement, ◌≡◌, ap, ◌∙◌, arith, ◌&&◌, ◌⊎◌,
}
use lkd.Bits.{
  bit, bit-lt, bit-bit_and, bit-bit_or, bit-pow, bit_and-pow, bit-mod, bit-complement, two-pow-lt,
}
use native.Mathlib.Nat.{one-le-pow}
use lkd.Memory.{Memory, IsBytes}
use lkd.Bitmap.{Bitmap, get_bit, set_bit, clear_bit}

-- The bit number is one of the bitmap's.
abbrev pub holds : Bitmap → ℕ → Bool
holds b i = not (leb b.size (i / 8))

-- `1 << k`.
one_shifted : (k : ℕ) → 1 <<< k ≡ 2 ^ k
one_shifted k = omega arith

bit-flag : (k j : ℕ) → bit j (1 <<< k) ≡ (if j == k then 1 else 0)
bit-flag k j = ap (bit j) (one_shifted k) ∙ bit-pow k j

bit-mask : (k j : ℕ) → k < 8 → j < 8 → bit j (complement (1 <<< k)) ≡ (if j == k then 0 else 1)
bit-mask k j hk hj =
    let fits : 2 ^ k < 2 ^ 32 = two-pow-lt k 32 (omega arith) in
    ground (
      arith,
      one_shifted k,
      bit-complement j 32 (1 <<< k) (omega arith) (rw (one_shifted k) fits),
      bit-flag k j,
    )

pub get_bit_lem :
    (m : Memory) (b : Bitmap) (i : ℕ)
    → get_bit m b i ≡ (holds b i && (bit (i % 8) (m (b.ptr + i / 8)) == 1))
unfolding get_bit
get_bit_lem m b i = ground (
  arith,
  one_shifted (i % 8),
  bit_and-pow (i % 8) (m (b.ptr + i / 8)),
  bit-lt (i % 8) (m (b.ptr + i / 8)),
  one-le-pow (i % 8) 2,
)

module _ (m : Memory) (b : Bitmap) (i j : ℕ) where
  cell : ℕ → ℕ
  cell k = m (b.ptr + k / 8)

  -- Setting a bit of the bitmap sets that one and keeps every other; setting one beyond its end
  -- changes nothing.
  pub get_bit-set_bit :
      get_bit (set_bit m b i).1 b j ≡ (if i == j && holds b i then true else get_bit m b j)
  unfolding set_bit cell
  get_bit-set_bit = ground (
    arith,
    get_bit_lem (set_bit m b i).1 b j,
    get_bit_lem m b j,
    bit-mod (j % 8) 8 (bit_or (cell i) (1 <<< (i % 8))),
    bit-bit_or (j % 8) (cell i) (1 <<< (i % 8)),
    bit-flag (i % 8) (j % 8),
    bit-lt (j % 8) (cell j),
  )

  pub get_bit-clear_bit :
      get_bit (clear_bit m b i).1 b j ≡ (if i == j then false else get_bit m b j)
  unfolding clear_bit cell
  get_bit-clear_bit = ground (
    arith,
    get_bit_lem (clear_bit m b i).1 b j,
    get_bit_lem m b j,
    bit-mod (j % 8) 8 (bit_and (cell i) (complement (1 <<< (i % 8)))),
    bit-bit_and (j % 8) (cell i) (complement (1 <<< (i % 8))),
    bit-mask (i % 8) (j % 8),
    bit-lt (j % 8) (cell j),
  )

module _ (m : Memory) (b : Bitmap) (i : ℕ) where
  -- `set_bit` tells whether the bit is one of the bitmap's; it sets that one and keeps every other,
  -- and changes no byte outside the bitmap.
  pub set_bit_lem :
      ((set_bit m b i).0 ≡ holds b i)
      × ((j : ℕ)
          → get_bit (set_bit m b i).1 b j ≡ (if i == j && holds b i then true else get_bit m b j))
      × ((a : ℕ) → (a < b.ptr) ⊎ (b.ptr + b.size ≤ a) → (set_bit m b i).1 a ≡ m a)
  unfolding set_bit
  set_bit_lem = (ground arith, get_bit-set_bit m b i, λ a h. ground arith)

  -- `clear_bit` tells whether the bit is one of the bitmap's; it clears that one and keeps every
  -- other, and changes no byte outside the bitmap.
  pub clear_bit_lem :
      ((clear_bit m b i).0 ≡ holds b i)
      × ((j : ℕ) → get_bit (clear_bit m b i).1 b j ≡ (if i == j then false else get_bit m b j))
      × ((a : ℕ) → (a < b.ptr) ⊎ (b.ptr + b.size ≤ a) → (clear_bit m b i).1 a ≡ m a)
  unfolding clear_bit
  clear_bit_lem = (ground arith, get_bit-clear_bit m b i, λ a h. ground arith)

  pub set_bit-IsBytes : IsBytes m → IsBytes (set_bit m b i).1
  unfolding set_bit
  set_bit-IsBytes h a = ground (arith, h a)

  pub clear_bit-IsBytes : IsBytes m → IsBytes (clear_bit m b i).1
  unfolding clear_bit
  clear_bit-IsBytes h a = ground (arith, h a)
