-- ===== src/Kmalloc/Heap/Blocks.antt =====
-- The bytes of the blocks of a heap stay as they are in `malloc` and `free`.
use lkd.Prelude.{
  ℕ, ◌+◌, ◌*◌, ◌/◌, ◌^◌, ◌≤◌, ◌<◌, Option, none, some, false, ◌≡◌, inl, inr, refl, ap, sym, ◌∙◌,
  arith, Option-cases, Bool-cases,
}
use lkd.Memory.{Memory}
use lkd.Bitmap.{clear_bit, is_empty}
use lkd.Pmm.{Pmm}
use lkd.Pmm.Frames.{used, IsValid, exhausted, frame, allocate_frame-Allocated}
use lkd.Kmalloc.{Bucket, bitmap_offset, new_bucket}
use lkd.Kmalloc.Power.{compute_power-Least}
use lkd.Kmalloc.Malloc.{Buckets, search, malloc, malloc_new}
use lkd.Kmalloc.Free.{bucket_at, free}
use lkd.Kmalloc.Heap.{IsHeap, Placed-bitmap}
use lkd.Kmalloc.Heap.Take.{found-Placed}
use lkd.Kmalloc.Heap.Data.{clear_bit-Unused, free_frame_same, data_outside, search_data, grown_data}
use lkd.Kmalloc.Freed.{without_slot, free_block}
use lkd.Kmalloc.Heap.Keeps.{served_range}

-- A byte of the page of a bucket of the list, behind the bits that are used.
pub record IsData (bs : Buckets) (a : ℕ) : Type 0 where
  pub page : ℕ
  pub bucket : Bucket
  pub found : bucket_at bs page ≡ some bucket
  pub behind : bucket.bitmap.ptr + (bucket.bitmap.size + 7) / 8 ≤ a
  pub inside : a < page + 4096

module _ (p : Pmm) (low : p.nb_frames ≤ 2 ^ 18) (m : Memory) (bs : Buckets)
    (heap : IsHeap p m bs) where
  grown_keeps :
      (k a : ℕ)
      → IsValid p
      → 4 ≤ k
      → k < 12
      → (free : (f : ℕ) × (1 ≤ f) × (f < p.nb_frames) × (used m p f ≡ false)) → IsData bs a
      → (malloc_new p m (2 ^ k) bs).2 a ≡ m a
  grown_keeps k a valid large small (g, above, below, unused) data_byte =
      let mine = found-Placed p m bs data_byte.page data_byte.bucket heap.placed data_byte.found in
      let behind = data_byte.behind in
      let inside = data_byte.inside in
      let (from, to) = Placed-bitmap mine in
      elim (allocate_frame-Allocated p valid m (omega arith)) [
        | exhausted e all ↦ absurd (ground (arith, all g above below))
        | frame f lo hi free all addr kept ↦
            grown_data p m bs k f data_byte.page data_byte.bucket large small (omega arith) addr
              free mine a (omega arith) inside
      ]

  -- With a bit for every frame, memory of at most 1 GiB and a free frame above 0, a request of at
  -- most 2048 bytes from a heap ends, and writes no byte of its buckets' pages behind the bits that
  -- are used, which is where the blocks lie.
  pub malloc_keeps_blocks :
      (size : ℕ)
      → IsValid p
      → size ≤ 2048
      → (free : (f : ℕ) × (1 ≤ f) × (f < p.nb_frames) × (used m p f ≡ false))
      → (r : ℕ × Buckets × Memory) × (malloc p 28 m bs size ≡ some r)
        × ((a : ℕ) → IsData bs a → r.2 a ≡ m a)
  unfolding malloc
  malloc_keeps_blocks size valid small free =
      let (k, power, least) = compute_power-Least size (omega arith) in
      let (large, below) = served_range size k small least in
      elim (Option-cases (search m (2 ^ k) bs)) [
        | inl full ↦ (
          malloc_new p m (2 ^ k) bs,
          rw (power, full, malloc) refl,
          λ a data_byte. grown_keeps k a valid large below free data_byte,
        )
        | inr (block, given) ↦ (
          (block.0, bs, block.1),
          rw (power, given, malloc) refl,
          λ a data_byte.
              search_data p m (2 ^ k) bs block data_byte.page data_byte.bucket heap.placed
                (found-Placed p m bs data_byte.page data_byte.bucket heap.placed data_byte.found)
                (λ d at.
                  ap (λ (o : Option Bucket). elim o [ none ↦ d | some x ↦ x ])
                    (sym at ∙ data_byte.found))
                given a data_byte.behind data_byte.inside,
        )
      ]

  cleared_keeps :
      (q : ℕ) (b : Bucket) (i a : ℕ)
      → bucket_at bs q ≡ some b
      → i < b.bitmap.size
      → IsData bs a
      → (clear_bit m b.bitmap i).1 a ≡ m a
  cleared_keeps q b i a found below data_byte =
      let mine = found-Placed p m bs data_byte.page data_byte.bucket heap.placed data_byte.found in
      let here = found-Placed p m bs q b heap.placed found in
      let same : q ≡ data_byte.page → b ≡ data_byte.bucket = λ e.
        ap (λ (o : Option Bucket). elim o [ none ↦ b | some x ↦ x ])
          (sym found ∙ ap (bucket_at bs) e ∙ data_byte.found) in
      clear_bit-Unused m b.bitmap i a below
        (data_outside p m mine here same a data_byte.behind data_byte.inside)

  module _ (k n i : ℕ) (large : 5 ≤ k) (small : k < 12) (above : 1 ≤ n) (page : n < 2 ^ 20)
      (slot : i < (new_bucket (4096 * n) (2 ^ k)).bitmap.size)
      (found : bucket_at bs (4096 * n) ≡ some (new_bucket (4096 * n) (2 ^ k))) where
    -- With memory of at most 1 GiB, `free` of a block of 32 to 2048 bytes of a bucket of the heap
    -- ends, and writes no byte of the buckets' pages behind the bits that are used, which is where
    -- the blocks lie.
    pub free_keeps_blocks :
        (r : Buckets × Memory) × (free p m bs (bitmap_offset (new_bucket (4096 * n) (2 ^ k)) i)
          ≡ some r)
        × ((a : ℕ) → IsData bs a → r.1 a ≡ m a)
    free_keeps_blocks =
        let b = new_bucket (4096 * n) (2 ^ k) in
        let m' = without_slot n k i m in
        (
          _,
          free_block p k n i large small above page slot m bs found,
          λ a data_byte.
              let mine =
                found-Placed p m bs data_byte.page data_byte.bucket heap.placed data_byte.found in
              let apart = mine.apart in
              let behind = data_byte.behind in
              let inside = data_byte.inside in
              let (from, to) = Placed-bitmap mine in
              let kept = cleared_keeps (4096 * n) b i a found slot data_byte in
              elim (Bool-cases (is_empty m' b.bitmap)) [
                | inl empty ↦ rw empty (free_frame_same p m' (4096 * n) a (omega arith) ∙ kept)
                | inr more ↦ rw more kept
              ],
        )
