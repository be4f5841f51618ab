-- ===== src/Tar/Size.antt =====
-- What the size field says, and how far the next header is.
use native.Mathlib.Nat.{mod-add-div, add-mul-mod_self_left}
use lkd.Prelude.{
  ℕ, zero, suc, ◌+◌, ◌-◌, ◌*◌, ◌/◌, ◌%◌, ◌^◌, ◌≤◌, ◌<◌, u32, ◌≡◌, ap, ◌∙◌, sym, arith,
}
use lkd.Memory.{Memory}
use lkd.Tar.{digit, getsize_from, getsize, next_header}

-- The number that the first `n` characters are in octal, the highest digit first.
unfoldable pub octal : Memory → ℕ → ℕ → ℕ
octal m text zero = 0
octal m text (suc n) = octal m text n * 8 + (m (text + n) - b'0')

-- The first `n` characters are octal digits.
abbrev pub IsOctal : Memory → ℕ → ℕ → Type 0
IsOctal m text n = (i : ℕ) → i < n → (b'0' ≤ m (text + i)) × (m (text + i) ≤ b'7')

digit_lem : (c : ℕ) → b'0' ≤ c → c ≤ b'7' → digit c ≡ c - b'0'
unfolding digit
digit_lem c low high = ground arith

-- A digit times a count that has wrapped around.
wrapped_product : (d c : ℕ) → u32 (d * u32 c) ≡ u32 (d * c)
wrapped_product d c =
    let parts : d * c ≡ d * u32 c + 2 ^ 32 * (d * (c / 2 ^ 32)) =
      grind (arith, ap (λ (t : ℕ). d * t) (mod-add-div c (2 ^ 32))) in
    sym (
      ap (λ (t : ℕ). t % 2 ^ 32) parts
      ∙ add-mul-mod_self_left (d * u32 c) (2 ^ 32) (d * (c / 2 ^ 32)))

getsize_from_lem :
    (m : Memory) (text j count size : ℕ)
    → IsOctal m text j
    → getsize_from m text j (u32 count) (u32 size) ≡ u32 (octal m text j * count + size)
unfolding getsize_from octal
getsize_from_lem m text zero count size h = omega arith
getsize_from_lem m text (suc j) count size h =
    let d = m (text + j) - b'0' in
    let (low, high) = h j (omega arith) in
    let value : digit (m (text + j)) ≡ d = digit_lem (m (text + j)) low high in
    let wider : u32 (u32 count * 8) ≡ u32 (count * 8) = omega arith in
    let sum : u32 (u32 size + u32 (d * u32 count)) ≡ u32 (d * count + size) =
      omega (arith, wrapped_product d count) in
    let ih = getsize_from_lem m text j (count * 8) (d * count + size) (λ i lt. h i (omega arith)) in
    let same : octal m text j * (count * 8) + (d * count + size)
        ≡ (octal m text j * 8 + d) * count + size =
      grind arith in
    rw (value, wider, sum) (ih ∙ ap (λ (t : ℕ). u32 t) same)

-- A size field of eleven octal digits is read as the number that they stand for, cut to 32 bits.
pub getsize_lem :
    (m : Memory) (text : ℕ) → IsOctal m text 11 → getsize m text ≡ octal m text 11 % 2 ^ 32
unfolding getsize
getsize_lem m text h = getsize_from_lem m text 11 1 0 h ∙ omega arith

-- The next header lies behind the 512 bytes of the entry's own and its data, filled up to a multiple
-- of 512, where 1 KiB more than the data still fits below 4 GiB.
pub next_header_lem :
    (address size : ℕ)
    → address + size + 1024 ≤ 2 ^ 32
    → (next_header address size ≡ address + 512 + (size + 511) / 512 * 512)
      × (address + 512 + size ≤ next_header address size)
      × (next_header address size < address + 512 + size + 512)
unfolding next_header
next_header_lem address size h = (ground arith, ground arith, ground arith)
