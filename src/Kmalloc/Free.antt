-- ===== src/Kmalloc/Free.antt =====
-- `kmalloc::free` of src/vmm/kmalloc.cpp and `Bucket::remove_bucket` of src/vmm/bucket.cpp.
-- `none` means that the pointer's page is no bucket of the list. The code does not stop there: it
-- takes what it finds for a bucket, and may free that page's frame, which is not modelled.
use lkd.Prelude.{ℕ, [], ◌∷◌, Option, none, some, ◌==◌, if◌then◌else◌}
use lkd.Memory.{Memory}
use lkd.Bitmap.{clear_bit, is_empty}
use lkd.Pmm.{Pmm, null, free_frame}
use lkd.Kmalloc.{Bucket, page_begin, free_slot}
use lkd.Kmalloc.Malloc.{Buckets}

-- The bucket at an address.
unfoldable pub bucket_at : Buckets → ℕ → Option Bucket
bucket_at [] address = none
bucket_at ((a, b) ∷ rest) address =
    let others = bucket_at rest address in if a == address then some b else others

-- The list of `remove_bucket`.
unfoldable pub unlink : Buckets → ℕ → Buckets
unlink [] address = []
unlink ((a, b) ∷ rest) address =
    let others = unlink rest address in if a == address then rest else (a, b) ∷ others

module _ (p : Pmm) where
  unfoldable pub remove_bucket : Memory → Buckets → ℕ → Buckets × Memory
  remove_bucket m buckets address = (unlink buckets address, free_frame p m address)

  -- Behind the search for the bucket.
  unfoldable pub clear_slot : Memory → Buckets → ℕ → Bucket → ℕ → Buckets × Memory
  clear_slot m buckets current b ptr =
      let m' = (clear_bit m b.bitmap (free_slot b ptr)).1 in
      if is_empty m' b.bitmap then remove_bucket m' buckets current else (buckets, m')

  unfoldable pub free : Memory → Buckets → ℕ → Option (Buckets × Memory)
  free m [] ptr = some ([], m)
  free m (first ∷ rest) ptr =
      let current = page_begin ptr 0x1000 in
      let cleared : Option (Buckets × Memory) = elim (bucket_at (first ∷ rest) current) [
        | none ↦ none
        | some b ↦ some (clear_slot m (first ∷ rest) current b ptr)
      ] in
      if ptr == null
      then some (first ∷ rest, m)
      else if current == null
      then some (first ∷ rest, m)
      else cleared
