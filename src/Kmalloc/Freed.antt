-- ===== src/Kmalloc/Freed.antt =====
-- What `free` does to a bucket of the list.
use lkd.Prelude.{ℕ, ◌*◌, ◌^◌, ◌≤◌, ◌<◌, [], ◌∷◌, some, if◌then◌else◌, ◌≡◌, ◌≢◌, refl, arith, ◌∙◌}
use lkd.Memory.{Memory}
use lkd.Bitmap.{clear_bit, is_empty}
use lkd.Pmm.{Pmm, free_frame}
use lkd.Kmalloc.{Bucket, bitmap_offset, page_begin, new_bucket}
use lkd.Kmalloc.Layout.{block_in_page, free_slot-bitmap_offset}
use lkd.Kmalloc.Malloc.{Buckets}
use lkd.Kmalloc.Free.{bucket_at, unlink, remove_bucket, clear_slot, free}

-- The memory with slot `i` of a bucket of blocks of `2 ^ k` bytes in page `n` cleared.
abbrev pub without_slot : ℕ → ℕ → ℕ → Memory → Memory
without_slot n k i m = (clear_bit m (new_bucket (4096 * n) (2 ^ k)).bitmap i).1

module _ (p : Pmm) where
  -- `free` of a pointer into the page of a bucket of the list clears a slot of that bucket.
  pub free_found :
      (m : Memory) (buckets : Buckets) (b : Bucket) (ptr current : ℕ)
      → page_begin ptr 0x1000 ≡ current
      → bucket_at buckets current ≡ some b
      → ptr ≢ 0
      → current ≢ 0
      → free p m buckets ptr ≡ some (clear_slot p m buckets current b ptr)
  unfolding free bucket_at
  free_found m [] b ptr current begin at some_ptr some_page = ground arith
  free_found m (first ∷ rest) b ptr current begin at some_ptr some_page =
      rw (begin, at) (ground arith)

  module _ (k n i : ℕ) (large : 5 ≤ k) (small : k < 12) (above : 1 ≤ n) (page : n < 2 ^ 20)
      (slot : i < (new_bucket (4096 * n) (2 ^ k)).bitmap.size) where
    -- `free` of a block of 32 to 2048 bytes in slot `i` of a bucket of the list, above page 0,
    -- clears that slot; if no byte of the bitmap is set then, the bucket leaves the list and its
    -- frame is freed.
    pub free_block :
        (m : Memory) (buckets : Buckets)
        → bucket_at buckets (4096 * n) ≡ some (new_bucket (4096 * n) (2 ^ k))
        → free p m buckets (bitmap_offset (new_bucket (4096 * n) (2 ^ k)) i)
          ≡ some (
              if is_empty (without_slot n k i m) (new_bucket (4096 * n) (2 ^ k)).bitmap
              then (unlink buckets (4096 * n), free_frame p (without_slot n k i m) (4096 * n))
              else (buckets, without_slot n k i m))
    unfolding clear_slot remove_bucket
    free_block m buckets at =
        let (behind, inside, begin) = block_in_page k (omega arith) small n i page slot in
        let own = free_slot-bitmap_offset k (omega arith) small n i page slot large in
        free_found m buckets (new_bucket (4096 * n) (2 ^ k))
          (bitmap_offset (new_bucket (4096 * n) (2 ^ k)) i) (4096 * n) begin at
          (omega (arith, behind)) (omega arith)
        ∙ rw own refl
