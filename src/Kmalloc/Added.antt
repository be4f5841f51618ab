-- ===== src/Kmalloc/Added.antt =====
-- The bucket that `malloc` adds, and the block that it gives of it.
use native.Mathlib.Decide.{ℕ_discrete}
use native.Mathlib.Nat.{mul-div-le, mul-le-mul_right}
use lkd.Prelude.{
  ℕ, ◌+◌, ◌-◌, ◌*◌, ◌/◌, ◌%◌, ◌^◌, ◌≤◌, ◌<◌, ◌∷◌, Option, none, some, false, ◌==◌, if◌then◌else◌,
  u32, ◌≡◌, ◌≢◌, refl, ap, ◌∙◌, arith,
}
use lkd.Bits.{bit, bit-bit_or, bit-zero, bit-kernel_offset}
use lkd.Memory.{Memory, p2v}
use lkd.Bitmap.{Bitmap, bitmap, get_bit, set_first_free}
use lkd.Bitmap.Laws.{get_bit_lem}
use lkd.Bitmap.Scan.{FirstFree, set_first_free_lem}
use lkd.Printing.Stack.{ne→==false}
use lkd.Strings.{memset}
use lkd.Strings.Blocks.{memset_lem}
use lkd.Pmm.{Pmm, null, allocate_frame}
use lkd.Kmalloc.{Bucket, bitmap_offset, bitmap_size, new_bucket, sizeof_bucket}
use lkd.Kmalloc.Malloc.{Buckets, first_of, allocate_bucket, push_bucket, malloc_new}

p2v_ne : (a : ℕ) → p2v a ≢ null
unfolding p2v
p2v_ne a e =
    let top : bit 31 (p2v a) ≡ 0 = ap (bit 31) e ∙ bit-zero 31 in
    absurd (omega (arith, top, bit-bit_or 31 a 0xC0000000, bit-kernel_offset))

-- The first slot of a bitmap without a set bit is the one that is taken.
first_slot :
    (m : Memory) (b : Bitmap) (r : Option ℕ × Memory)
    → FirstFree m b r
    → ((j : ℕ) → get_bit m b j ≡ false)
    → 0 < b.size
    → (r.0 ≡ some 0) × ((j : ℕ) → get_bit r.1 b j ≡ (0 == j))
first_slot m b (none, m') f clear some_slot = absurd (ground (arith, f.1 0 some_slot, clear 0))
first_slot m b (some k, m') f clear some_slot = elim (ℕ_discrete k 0) [
  | yes zeroth ↦ (ap some zeroth, λ j. ground (arith, f.1 j, clear j, zeroth))
  | no later ↦ absurd (ground (arith, f.0.3 0 (omega arith) (omega arith), clear 0))
]

module _ (out power : ℕ) (large : 16 ≤ power) where
  -- The blocks that the bitmap of a new bucket is made for.
  abbrev slots : ℕ
  slots = let s = bitmap_size (new_bucket out power).size power in if s == 0 then 1 else s

  few_slots : (1 ≤ slots) × (slots ≤ 2 ^ 28)
  unfolding bitmap_size
  few_slots =
      let x = u32 ((new_bucket out power).size + 2 ^ 32 - sizeof_bucket) in
      let q = x / power in
      let below : power * q ≤ x = mul-div-le x power in
      let product : 16 * q ≤ power * q = mul-le-mul_right q large in ground arith

  bitmap_bytes : ((new_bucket out power).bitmap.size ≡ (slots + 7) / 8) × (0 < (slots + 7) / 8)
  unfolding new_bucket bitmap
  bitmap_bytes = let (low, high) = few_slots in (omega arith, omega arith)

-- The result of a call that adds a bucket: it stands in front of the list, in the frame that the
-- allocator gives, and its first slot is taken, and no other.
abbrev pub Added : Pmm → Memory → Buckets → ℕ → ℕ × Buckets × Memory → Type 0
Added p m bs power r =
    let out = p2v ((allocate_frame p m).0) in
    let b = new_bucket out power in
    (m' : Memory) × (r ≡ (bitmap_offset b 0, (out, b) ∷ bs, m'))
    × ((j : ℕ) → get_bit m' b.bitmap j ≡ (0 == j))

module _ (p : Pmm) (m : Memory) (bs : Buckets) (power : ℕ) (large : 16 ≤ power) where
  abbrev out : ℕ
  out = p2v ((allocate_frame p m).0)

  abbrev made : Bucket
  made = new_bucket out power

  -- The memory with the bitmap of the new bucket cleared.
  abbrev cleared : Memory
  cleared = memset (allocate_frame p m).1 (out + sizeof_bucket) 0 ((slots out power large + 7) / 8)

  made_by_frame : allocate_bucket p m power ≡ (some (out, made), cleared)
  unfolding allocate_bucket
  made_by_frame =
      let real : (out == 0) ≡ false = ne→==false out 0 (p2v_ne ((allocate_frame p m).0)) in
      rw real refl

  in_front : malloc_new p m power bs ≡ first_of ((out, made) ∷ bs) cleared
  unfolding malloc_new push_bucket
  in_front =
      let pushed : Option (ℕ × Bucket) × Memory → Option Buckets × Memory =
        λ r. elim (r.0) [ none ↦ (none, r.1) | some b ↦ (some (b ∷ bs), r.1) ] in
      ap
        (λ (r : Option (ℕ × Bucket) × Memory). elim (pushed r).0 [
          | none ↦ (null, bs, (pushed r).1)
          | some list ↦ first_of list (pushed r).1
        ])
        made_by_frame

  made_ptr : made.bitmap.ptr ≡ out + sizeof_bucket
  unfolding new_bucket bitmap
  made_ptr = refl

  all_clear : (j : ℕ) → get_bit cleared made.bitmap j ≡ false
  all_clear j =
      let (size, some_byte) = bitmap_bytes out power large in
      let start : made.bitmap.ptr ≡ out + sizeof_bucket = made_ptr in
      let n = (slots out power large + 7) / 8 in
      ground (
        arith,
        get_bit_lem cleared made.bitmap j,
        memset_lem (allocate_frame p m).1 (out + sizeof_bucket) 0 n (made.bitmap.ptr + j / 8),
        bit-zero (j % 8),
      )

  pub malloc_new-Added : Added p m bs power (malloc_new p m power bs)
  unfolding first_of
  malloc_new-Added =
      let (size, some_byte) = bitmap_bytes out power large in
      let (slot, bits) =
        first_slot cleared made.bitmap (set_first_free cleared made.bitmap)
          (set_first_free_lem cleared made.bitmap) all_clear (omega (arith, size)) in
      ((set_first_free cleared made.bitmap).1, in_front ∙ rw (slot, first_of) refl, bits)
