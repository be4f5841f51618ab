-- ===== src/Kmalloc/Heap/Keeps.antt =====
-- `malloc` and `free` keep the heap.
use native.Mathlib.Decide.{dec_lt}
use native.Mathlib.Nat.{pow-le-pow_right}
use lkd.Prelude.{
  ℕ, ap, refl, ◌∙◌, ◌≢◌, ◌^◌, ◌≤◌, ◌<◌, some, false, ◌≡◌, inl, inr, arith, Option-cases, Bool-cases,
}
use lkd.Memory.{Memory}
use lkd.Bitmap.{clear_bit, is_empty}
use lkd.Pmm.{Pmm}
use lkd.Pmm.Frames.{used, IsValid}
use lkd.Kmalloc.{Bucket, page_begin, free_slot}
use lkd.Kmalloc.Power.{Least, compute_power-Least}
use lkd.Kmalloc.Malloc.{Buckets, search, malloc, malloc_new}
use lkd.Kmalloc.Free.{bucket_at, clear_slot, free}
use lkd.Kmalloc.Freed.{free_found}
use lkd.Kmalloc.Heap.{IsHeap, IsHeap-same}
use lkd.Kmalloc.Heap.Give.{search_same}
use lkd.Kmalloc.Heap.Grow.{malloc_new-IsHeap}
use lkd.Kmalloc.Heap.Take.{found-Placed, cleared-IsHeap, removed-IsHeap}

-- Which blocks serve a request of at most 2048 bytes.
pub served_range : (size k : ℕ) → size ≤ 2048 → Least size k → (4 ≤ k) × (k < 12)
served_range size k small (enough, least, tight) =
    let below : 2 ^ k < 2 ^ 12 = ground arith in
    let above : 2 ^ 4 ≤ 2 ^ k = omega arith in
    (
      elim (dec_lt 3 k) [
        | yes more ↦ more
        | no less ↦
            let bound : 2 ^ k ≤ 2 ^ 3 =
              pow-le-pow_right (omega arith) {i = k} {j = 3} (omega arith) in
            absurd (omega arith)
      ],
      elim (dec_lt k 12) [
        | yes less ↦ less
        | no more ↦
            let bound : 2 ^ 12 ≤ 2 ^ k =
              pow-le-pow_right (omega arith) {i = 12} {j = k} (omega arith) in
            absurd (omega arith)
      ],
    )

page_begin_null : page_begin 0 0x1000 ≡ 0
unfolding page_begin
page_begin_null = omega arith

module _ (p : Pmm) (low : p.nb_frames ≤ 2 ^ 18) (m : Memory) (bs : Buckets)
    (heap : IsHeap p m bs) where
  -- With a bit for every frame, memory of at most 1 GiB and a free frame above 0, a request of at
  -- most 2048 bytes ends, and keeps the heap one: each bucket as `allocate_bucket` makes it for
  -- blocks of 16 to 2048 bytes, in a page of its own, whose frame is taken and has no byte of the
  -- frame allocator's bitmap, which lies in frames that are taken.
  pub malloc-IsHeap :
      (size : ℕ)
      → IsValid p
      → size ≤ 2048
      → (free : (f : ℕ) × (1 ≤ f) × (f < p.nb_frames) × (used m p f ≡ false))
      → (r : ℕ × Buckets × Memory) × (malloc p 28 m bs size ≡ some r) × IsHeap p r.2 r.1
  unfolding malloc
  malloc-IsHeap size valid small free =
      let (k, power, least) = compute_power-Least size (omega arith) in
      let (large, below) = served_range size k small least in
      let (f, above, inside, unused) = free in
      elim (Option-cases (search m (2 ^ k) bs)) [
        | inl full ↦ (
          malloc_new p m (2 ^ k) bs,
          rw (power, full, malloc) refl,
          malloc_new-IsHeap p valid (omega arith) low m bs k large below heap free,
        )
        | inr (block, found) ↦ (
          (block.0, bs, block.1),
          rw (power, found, malloc) refl,
          IsHeap-same p m (block.1) bs (search_same p m (2 ^ k) bs block heap.placed found) heap,
        )
      ]

  cleared :
      (a : ℕ) (b : Bucket) (ptr : ℕ)
      → bucket_at bs a ≡ some b
      → IsHeap p (clear_slot p m bs a b ptr).1 (clear_slot p m bs a b ptr).0
  unfolding clear_slot
  cleared a b ptr found =
      let i = free_slot b ptr in
      let m' = (clear_bit m b.bitmap i).1 in
      let now = cleared-IsHeap p m bs low heap a b found i in
      elim (Bool-cases (is_empty m' b.bitmap)) [
        | inl empty ↦ rw empty (removed-IsHeap p m' bs low now a b found)
        | inr more ↦ rw more now
      ]

  -- With memory of at most 1 GiB, `free` of any pointer into the page of a bucket of the list, a
  -- block's own or not, ends and keeps the heap one: the frame that it gives back, if any, is that
  -- of no bucket that stays in the list, and has no byte of the frame allocator's bitmap.
  pub free-IsHeap :
      (ptr : ℕ) (b : Bucket)
      → bucket_at bs (page_begin ptr 0x1000) ≡ some b
      → (r : Buckets × Memory) × (free p m bs ptr ≡ some r) × IsHeap p r.1 r.0
  free-IsHeap ptr b found =
      let here = found-Placed p m bs (page_begin ptr 0x1000) b heap.placed found in
      let start = here.start in
      let page : page_begin ptr 0x1000 ≢ 0 = omega arith in
      let given : ptr ≢ 0 = λ e. page (ap (λ t. page_begin t 0x1000) e ∙ page_begin_null) in
      (
        clear_slot p m bs (page_begin ptr 0x1000) b ptr,
        free_found p m bs b ptr (page_begin ptr 0x1000) refl found given page,
        cleared (page_begin ptr 0x1000) b ptr found,
      )
