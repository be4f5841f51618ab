-- ===== src/Kmalloc/Layout.antt =====
-- The blocks of one bucket: where they lie in its page, and which slot `free` takes each for.
use native.Mathlib.Nat.{mul-le-mul_right, add-mul-div_right, div-eq_of_lt}
use lkd.Prelude.{
  ℕ, suc, ◌+◌, ◌-◌, ◌*◌, ◌/◌, ◌^◌, ◌≤◌, ◌<◌, ltb, u32, ◌≡◌, refl, ap, arith, ◌∙◌, ◌&&◌, ◌||◌, Bool,
  leb, true, passes, passes_lem,
}
use lkd.Bitmap.{bitmap}
use lkd.Bits.Fields.{bit_and-low}
use lkd.Kmalloc.{
  Bucket, align, bitmap_offset, page_begin, free_slot, sizeof_bucket, bitmap_size, new_bucket,
}

padding : (v : ℕ) → v + 12 < 2 ^ 32 → (pad : ℕ) × (align v 12 ≡ v + pad) × (pad ≤ 11)
unfolding align
padding v h = (align v 12 - v, ground arith, ground arith)

-- A bucket in page `n`.
module _ (b : Bucket) (n : ℕ) (page : n < 2 ^ 20) (at : b.bitmap.ptr ≡ 4096 * n + 20)
    (few : b.bitmap.size ≤ 32) (i : ℕ) (near : i * b.power_size ≤ 4049) where
  block_padded :
      (pad : ℕ)
      → align (b.bitmap.ptr + (b.bitmap.size + 7) / 8) 12
        ≡ b.bitmap.ptr + (b.bitmap.size + 7) / 8 + pad
      → pad ≤ 11
      → bitmap_offset b i ≡ b.bitmap.ptr + (b.bitmap.size + 7) / 8 + pad + i * b.power_size
  unfolding bitmap_offset
  block_padded pad e le =
      let v = b.bitmap.ptr + (b.bitmap.size + 7) / 8 in
      let value : u32 (b.bitmap.ptr + u32 (b.bitmap.size + 7) / 8) ≡ v = omega arith in
      rw (value, e) (omega arith)

  block_at :
      (pad : ℕ) × (bitmap_offset b i
        ≡ b.bitmap.ptr + (b.bitmap.size + 7) / 8 + pad + i * b.power_size)
      × (pad ≤ 11)
  block_at =
      let (pad, e, le) = padding (b.bitmap.ptr + (b.bitmap.size + 7) / 8) (omega arith) in
      (pad, block_padded pad e le, le)

  -- The slot that `free` finds.
  slot_at :
      (pad : ℕ) × (free_slot b (bitmap_offset b i)
        ≡ ((b.bitmap.size + 7) / 8 + pad + b.bitmap.size + i * b.power_size) / b.power_size)
      × (pad ≤ 11)
  unfolding free_slot
  slot_at =
      let (pad, e, le) = block_at in (pad, ap (λ (t : ℕ). t / b.power_size) (omega (arith, e)), le)

page_of : (n r : ℕ) → r < 4096 → page_begin (4096 * n + r) 4096 ≡ 4096 * n
unfolding page_begin
page_of n r h = omega (arith, bit_and-low 12 (4096 * n + r))

-- The number of slots that are ever used in a bucket of blocks of `power` bytes.
slots_of : ℕ → ℕ
slots_of power = (new_bucket 0 power).bitmap.size

-- The sizes of the blocks fit a page, and each but the least exceeds the bytes before the blocks.
fits : ℕ → Bool
fits k =
    let s = slots_of (2 ^ k) in
    leb s 32
      && leb 16 (2 ^ k)
      && leb (31 + (s + 7) / 8 + s * 2 ^ k) 4096
      && (leb k 4 || ltb (11 + (s + 7) / 8 + s) (2 ^ k))
    || ltb k 4

fits_table : passes fits 12 ≡ true
unfolding passes fits slots_of new_bucket align bitmap_size bitmap
fits_table = refl

module _ (k : ℕ) (large : 4 ≤ k) (small : k < 12) where
  fits_lem :
      (slots_of (2 ^ k) ≤ 32)
      × (16 ≤ 2 ^ k)
      × (31 + (slots_of (2 ^ k) + 7) / 8 + slots_of (2 ^ k) * 2 ^ k ≤ 4096)
      × ((5 ≤ k) → 11 + (slots_of (2 ^ k) + 7) / 8 + slots_of (2 ^ k) < 2 ^ k)
  unfolding fits
  fits_lem = ground (arith, passes_lem fits 12 fits_table k small)

  module _ (n i : ℕ) (page : n < 2 ^ 20)
      (slot : i < (new_bucket (4096 * n) (2 ^ k)).bitmap.size) where
    fields :
        ((new_bucket (4096 * n) (2 ^ k)).bitmap.ptr ≡ 4096 * n + 20)
        × ((new_bucket (4096 * n) (2 ^ k)).bitmap.size ≡ slots_of (2 ^ k))
        × ((new_bucket (4096 * n) (2 ^ k)).power_size ≡ 2 ^ k)
    unfolding new_bucket bitmap slots_of
    fields = (refl, refl, refl)

    near : i * 2 ^ k + 2 ^ k ≤ slots_of (2 ^ k) * 2 ^ k
    near =
        let (ptr, size, power) = fields in
        let next : suc i ≤ slots_of (2 ^ k) = omega (arith, size) in
        omega (arith, mul-le-mul_right (2 ^ k) next)

    sized : (i * (new_bucket (4096 * n) (2 ^ k)).power_size ≡ i * 2 ^ k)
    sized = let (ptr, size, power) = fields in ap (λ (t : ℕ). i * t) power

    few : (new_bucket (4096 * n) (2 ^ k)).bitmap.size ≤ 32
    few =
        let (ptr, size, power) = fields in
        let (bound, low, all, less) = fits_lem in omega (arith, size, bound)

    inside : i * (new_bucket (4096 * n) (2 ^ k)).power_size ≤ 4049
    inside = let (bound, low, all, less) = fits_lem in omega (arith, near, sized, all, low)

    -- In a new bucket of blocks of 16 to 2048 bytes, a block whose slot can be found lies in the page
    -- of the bucket, behind the bits of the bitmap that are used, and the start of the page is found
    -- from the pointer.
    pub block_in_page :
        (4096 * n + sizeof_bucket + ((new_bucket (4096 * n) (2 ^ k)).bitmap.size + 7) / 8
          ≤ bitmap_offset (new_bucket (4096 * n) (2 ^ k)) i)
        × (bitmap_offset (new_bucket (4096 * n) (2 ^ k)) i + 2 ^ k ≤ 4096 * n + 4096)
        × (page_begin (bitmap_offset (new_bucket (4096 * n) (2 ^ k)) i) 4096 ≡ 4096 * n)
    block_in_page =
        let (ptr, size, power) = fields in
        let (bound, low, all, less) = fits_lem in
        let (pad, e, le) = block_at (new_bucket (4096 * n) (2 ^ k)) n page ptr few i inside in
        let r = 20 + ((new_bucket (4096 * n) (2 ^ k)).bitmap.size + 7) / 8 + pad + i * 2 ^ k in
        let parts : bitmap_offset (new_bucket (4096 * n) (2 ^ k)) i ≡ 4096 * n + r =
          omega (arith, sized) in
        (
          omega (arith, parts),
          omega (arith, parts, near),
          ap (λ (a : ℕ). page_begin a 4096) parts ∙ page_of n r (omega (arith, near)),
        )

    -- `free` finds the slot of a block of more than 16 bytes.
    pub free_slot-bitmap_offset :
        5 ≤ k
        → free_slot
            (new_bucket (4096 * n) (2 ^ k))
            (bitmap_offset (new_bucket (4096 * n) (2 ^ k)) i)
          ≡ i
    free_slot-bitmap_offset h =
        let (ptr, size, power) = fields in
        let (bound, low, all, less) = fits_lem in
        let (pad, e, le) = slot_at (new_bucket (4096 * n) (2 ^ k)) n page ptr few i inside in
        let rest_lt : (slots_of (2 ^ k) + 7) / 8 + pad + slots_of (2 ^ k) < 2 ^ k =
          omega (arith, less h) in
        e
        ∙ rw (size, power)
            (add-mul-div_right ((slots_of (2 ^ k) + 7) / 8 + pad + slots_of (2 ^ k)) i (omega arith)
              ∙ omega (arith, div-eq_of_lt rest_lt))

-- The bitmap of a new bucket with such blocks lies behind its fields, in its page.
pub bitmap_in_page :
    (k n : ℕ)
    → 4 ≤ k
    → k < 12
    → ((new_bucket (4096 * n) (2 ^ k)).bitmap.ptr ≡ 4096 * n + 20)
      × ((new_bucket (4096 * n) (2 ^ k)).bitmap.size ≤ 32)
unfolding new_bucket bitmap slots_of
bitmap_in_page k n large small = (refl, (fits_lem k large small).0)

-- In a new bucket of blocks of 16 to 2048 bytes, the blocks of two slots do not overlap.
pub blocks_apart :
    (k n i j : ℕ)
    → 4 ≤ k
    → k < 12
    → n < 2 ^ 20
    → i < j
    → j < (new_bucket (4096 * n) (2 ^ k)).bitmap.size
    → bitmap_offset (new_bucket (4096 * n) (2 ^ k)) i + 2 ^ k
      ≤ bitmap_offset (new_bucket (4096 * n) (2 ^ k)) j
blocks_apart k n i j large small page less slot =
    let b = new_bucket (4096 * n) (2 ^ k) in
    let slot' : i < (new_bucket (4096 * n) (2 ^ k)).bitmap.size = omega arith in
    let (ptr, size, power) = fields k large small n j page slot in
    let bound = few k large small n j page slot in
    let (pad, e, le) =
      padding (b.bitmap.ptr + (b.bitmap.size + 7) / 8) (omega (arith, ptr, bound)) in
    let at_i = block_padded b n page ptr bound i (inside k large small n i page slot') pad e le in
    let at_j = block_padded b n page ptr bound j (inside k large small n j page slot) pad e le in
    let order : suc i ≤ j = omega arith in
    omega (
      arith,
      at_i,
      at_j,
      sized k large small n i page slot',
      sized k large small n j page slot,
      mul-le-mul_right (2 ^ k) order,
    )

-- For a block of 16 bytes in a new bucket `free` takes the slot two after the block's own.
free_slot_too_far :
    (n i : ℕ)
    → n < 2 ^ 20
    → i < (new_bucket (4096 * n) 16).bitmap.size
    → free_slot (new_bucket (4096 * n) 16) (bitmap_offset (new_bucket (4096 * n) 16) i) ≡ i + 2
unfolding new_bucket align bitmap_size bitmap
free_slot_too_far n i page slot =
    let (pad, e, le) =
      slot_at (new_bucket (4096 * n) 16) n page refl (omega arith) i (omega arith) in
    e ∙ omega arith

-- A block of 4096 bytes reaches beyond the one frame that its bucket gets.
block_leaves_frame :
    (n : ℕ) → n < 2 ^ 20 → 4096 * n + 4096 < bitmap_offset (new_bucket (4096 * n) 4096) 0 + 4096
unfolding new_bucket align bitmap_size bitmap
block_leaves_frame n page =
    let (pad, e, le) =
      block_at (new_bucket (4096 * n) 4096) n page refl (omega arith) 0 (omega arith) in
    omega (arith, e)
