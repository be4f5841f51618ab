-- ===== src/Kmalloc/Malloc.antt =====
-- `kmalloc::malloc` of src/vmm/kmalloc.cpp and the functions of src/vmm/bucket.cpp that it calls. The
-- list of buckets is in the order of `next`, each bucket with its address; the fields of a bucket are
-- kept beside the memory of its page. `none` means that the loop of `compute_power` does not end.
use lkd.Prelude.{ℕ, ◌+◌, ◌/◌, List, [], ◌∷◌, Option, none, some, ◌==◌, if◌then◌else◌}
use lkd.Memory.{Memory, p2v}
use lkd.Strings.{memset}
use lkd.Bitmap.{set_first_free}
use lkd.Pmm.{Pmm, null, allocate_frame}
use lkd.Kmalloc.{Bucket, compute_power, bitmap_offset, bitmap_size, new_bucket, sizeof_bucket}

abbrev pub Buckets : Type 0
Buckets = List (ℕ × Bucket)

-- The slot that a bucket gives, and `none` where it has no free one or other blocks.
unfoldable pub take_slot : Memory → ℕ → Bucket → Option ℕ × Memory
take_slot m power b = if b.power_size == power then set_first_free m b.bitmap else (none, m)

-- The loop over the buckets.
unfoldable pub search : Memory → ℕ → Buckets → Option (ℕ × Memory)
search m power [] = none
search m power ((address, b) ∷ rest) =
    let others = search m power rest in
    elim ((take_slot m power b).0) [
      | none ↦ others
      | some i ↦ some (bitmap_offset b i, (take_slot m power b).1)
    ]

-- A slot of the bucket in front; a list that was pushed to is not empty.
unfoldable pub first_of : Buckets → Memory → ℕ × Buckets × Memory
first_of [] m = (null, [], m)
first_of ((address, b) ∷ rest) m =
    let (slot, m') = set_first_free m b.bitmap in
    elim slot [
      | none ↦ (null, (address, b) ∷ rest, m')
      | some i ↦ (bitmap_offset b i, (address, b) ∷ rest, m')
    ]

module _ (p : Pmm) where
  -- `none` is `nullptr`.
  unfoldable pub allocate_bucket : Memory → ℕ → Option (ℕ × Bucket) × Memory
  allocate_bucket m size =
      let (frame, m') = allocate_frame p m in
      let out = p2v frame in
      let b = new_bucket out size in
      let slots = bitmap_size b.size size in
      if out == null then (none, m') else (
        some (out, b),
        memset m' (out + sizeof_bucket) 0 (((if slots == 0 then 1 else slots) + 7) / 8),
      )

  unfoldable pub push_bucket : Memory → ℕ → Buckets → Option Buckets × Memory
  push_bucket m size buckets = elim ((allocate_bucket m size).0) [
    | none ↦ (none, (allocate_bucket m size).1)
    | some b ↦ (some (b ∷ buckets), (allocate_bucket m size).1)
  ]

  -- What is left to do behind the loop: a new bucket, and its first slot.
  unfoldable pub malloc_new : Memory → ℕ → Buckets → ℕ × Buckets × Memory
  malloc_new m power buckets =
      let (pushed, m') = push_bucket m power buckets in
      elim pushed [ none ↦ (null, buckets, m') | some bs ↦ first_of bs m' ]

  unfoldable pub malloc : ℕ → Memory → Buckets → ℕ → Option (ℕ × Buckets × Memory)
  malloc fuel m buckets size = elim (compute_power fuel size) [
    | none ↦ none
    | some power ↦ elim (search m power buckets) [
      | none ↦ some (malloc_new m power buckets)
      | some block ↦ some (block.0, buckets, block.1)
    ]
  ]
