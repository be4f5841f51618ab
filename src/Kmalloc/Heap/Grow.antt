-- ===== src/Kmalloc/Heap/Grow.antt =====
-- The bucket that `malloc` adds: its frame was free, so its page is that of no other bucket, and has
-- no byte of the frame allocator's bitmap.
use native.Mathlib.Decide.{dec_lt}
use lkd.Prelude.{
  ℕ, ◌+◌, ◌*◌, ◌/◌, ◌^◌, ◌≤◌, ◌<◌, [], ◌∷◌, Option, none, some, true, false, ◌==◌, if◌then◌else◌,
  ◌≡◌, ◌≢◌, ◌⊎◌, inl, inr, refl, ap, ◌∙◌, arith, Option-cases, Bool, leb, ltb, ◌||◌, passes,
  passes_lem,
}
use lkd.Memory.{Memory, p2v}
use lkd.Memory.Address.{p2v_lem}
use lkd.Bitmap.{set_first_free, bitmap}
use lkd.Printing.Stack.{ne→==false}
use lkd.Strings.{memset}
use lkd.Strings.Blocks.{memset_lem}
use lkd.Pmm.{Pmm, null, allocate_frame}
use lkd.Pmm.Frames.{used, IsValid, exhausted, frame, allocate_frame-Allocated}
use lkd.Kmalloc.{Bucket, new_bucket, bitmap_size, align, sizeof_bucket}
use lkd.Kmalloc.Malloc.{Buckets, first_of, allocate_bucket, push_bucket, malloc_new}
use lkd.Kmalloc.Free.{bucket_at}
use lkd.Kmalloc.Heap.{
  frame_page, Apart, IsPlaced, HasBitmap, IsHeap, IsHeap-keeps, IsHeap-same, Placed-bitmap,
}
use lkd.Kmalloc.Heap.Give.{set_first_free_same}

-- The bytes that `allocate_bucket` clears.
unfoldable pub cleared_bytes : ℕ → ℕ
cleared_bytes power =
    let slots = bitmap_size (new_bucket 0 power).size power in
    ((if slots == 0 then 1 else slots) + 7) / 8

few_bytes : ℕ → Bool
few_bytes k = leb (cleared_bytes (2 ^ k)) 32 || ltb k 4

few_bytes_table : passes few_bytes 12 ≡ true
unfolding passes few_bytes cleared_bytes new_bucket align bitmap_size bitmap
few_bytes_table = refl

pub few_cleared : (k : ℕ) → 4 ≤ k → k < 12 → cleared_bytes (2 ^ k) ≤ 32
unfolding few_bytes
few_cleared k large small = ground (arith, passes_lem few_bytes 12 few_bytes_table k small)

module _ (p : Pmm) (m : Memory) (f : ℕ) (free : used m p f ≡ false) where
  pub other_frame : (g : ℕ) → used m p g ≡ true → g ≢ f
  other_frame g taken same = ground (arith, ap (used m p) same)

  -- No bucket lies in the page of a frame that is free.
  no_bucket : (bs : Buckets) → IsPlaced p m bs → bucket_at bs (frame_page f) ≡ none
  unfolding bucket_at
  no_bucket [] placed = refl
  no_bucket ((address, b) ∷ rest) (here, own, others) =
      let other = other_frame here.frame here.taken in
      let start = here.start in ground (arith, no_bucket rest others)

  -- No byte of the frame allocator's bitmap lies in the page of a frame that is free.
  no_byte :
      HasBitmap p m
      → (a : ℕ) → frame_page f ≤ a
      → a < frame_page f + 4096
      → (a < p.bm.ptr) ⊎ (p.bm.ptr + p.bm.size ≤ a)
  no_byte has a from to = elim (dec_lt a p.bm.ptr) [
    | yes before ↦ inl before
    | no not_before ↦ elim (dec_lt a (p.bm.ptr + p.bm.size)) [
      | no behind ↦ inr (omega arith)
      | yes inside ↦
          let (g, taken, lo, hi) = has a (omega arith) inside in
          absurd (other_frame g taken (omega arith))
    ]
  ]

  free_page-Apart : 1 ≤ p.bm.size → HasBitmap p m → Apart p (frame_page f)
  free_page-Apart some_byte has = elim (dec_lt p.bm.ptr (frame_page f)) [
    | yes before ↦ elim (no_byte has (frame_page f) (omega arith) (omega arith)) [
      | inl low ↦ absurd (omega arith)
      | inr high ↦ inl high
    ]
    | no not_before ↦ elim (dec_lt p.bm.ptr (frame_page f + 4096)) [
      | no behind ↦ inr (omega arith)
      | yes inside ↦ elim (no_byte has p.bm.ptr (omega arith) inside) [
        | inl low ↦ absurd (omega arith)
        | inr high ↦ absurd (omega arith)
      ]
    ]
  ]

pub first_of_lem :
    (address : ℕ) (b : Bucket) (rest : Buckets) (m : Memory)
    → ((first_of ((address, b) ∷ rest) m).1 ≡ (address, b) ∷ rest)
      × ((first_of ((address, b) ∷ rest) m).2 ≡ (set_first_free m b.bitmap).1)
unfolding first_of
first_of_lem address b rest m = elim (Option-cases ((set_first_free m b.bitmap).0)) [
  | inl full ↦ rw (full, first_of) (refl, refl)
  | inr (i, slot) ↦ rw (slot, first_of) (refl, refl)
]

module _ (p : Pmm) (m : Memory) (bs : Buckets) (power f : ℕ) (low : f < 2 ^ 18)
    (given : (allocate_frame p m).0 ≡ f * 4096) where
  allocate_bucket_at : allocate_bucket p m power ≡ (
    some (frame_page f, new_bucket (frame_page f) power),
    memset (allocate_frame p m).1 (frame_page f + sizeof_bucket) 0 (cleared_bytes power),
  )
  unfolding allocate_bucket cleared_bytes new_bucket
  allocate_bucket_at =
      let out : p2v ((allocate_frame p m).0) ≡ frame_page f =
        ap p2v given ∙ p2v_lem (f * 4096) (omega arith) ∙ omega arith in
      let real : (frame_page f == 0) ≡ false = ne→==false (frame_page f) 0 (omega arith) in
      rw (out, real) refl

  pub malloc_new_lem :
      malloc_new p m power bs
      ≡ first_of
          ((frame_page f, new_bucket (frame_page f) power) ∷ bs)
          (memset (allocate_frame p m).1 (frame_page f + sizeof_bucket) 0 (cleared_bytes power))
  unfolding malloc_new push_bucket
  malloc_new_lem =
      let pushed : Option (ℕ × Bucket) × Memory → Option Buckets × Memory =
        λ r. elim (r.0) [ none ↦ (none, r.1) | some b ↦ (some (b ∷ bs), r.1) ] in
      ap
        (λ (r : Option (ℕ × Bucket) × Memory). elim (pushed r).0 [
          | none ↦ (null, bs, (pushed r).1)
          | some list ↦ first_of list (pushed r).1
        ])
        allocate_bucket_at

module _ (p : Pmm) (v : IsValid p) (pos : 1 ≤ p.nb_frames) (low : p.nb_frames ≤ 2 ^ 18) (m : Memory)
    (bs : Buckets) (k : ℕ) (large : 4 ≤ k) (small : k < 12) (heap : IsHeap p m bs) where
  added :
      (f : ℕ)
      → 1 ≤ f
      → f < p.nb_frames
      → used m p f ≡ false
      → ((j : ℕ) → used (allocate_frame p m).1 p j ≡ (if f == j then true else used m p j))
      → IsHeap p (allocate_frame p m).1 ((frame_page f, new_bucket (frame_page f) (2 ^ k)) ∷ bs)
  added f above below free kept =
      let before =
        IsHeap-keeps p m (allocate_frame p m).1 bs (λ g taken. ground (arith, kept g)) heap in
      record {
        bitmap = before.bitmap;
        placed = (
          record {
            frame = f;
            power = k;
            above = above;
            below = below;
            start = refl;
            large = large;
            small = small;
            made = refl;
            taken = ground (arith, kept f);
            apart = free_page-Apart p m f free (omega (arith, v.covered)) heap.bitmap;
          },
          no_bucket p m f free bs heap.placed,
          before.placed,
        );
      }

  started :
      (f : ℕ)
      → IsHeap p (allocate_frame p m).1 ((frame_page f, new_bucket (frame_page f) (2 ^ k)) ∷ bs)
      → f < p.nb_frames
      → (allocate_frame p m).0 ≡ f * 4096
      → IsHeap p (malloc_new p m (2 ^ k) bs).2 (malloc_new p m (2 ^ k) bs).1
  started f now below given =
      let here = now.placed.0 in
      let apart = here.apart in
      let page = frame_page f in
      let b = new_bucket page (2 ^ k) in
      let m1 = (allocate_frame p m).1 in
      let m2 = memset m1 (page + sizeof_bucket) 0 (cleared_bytes (2 ^ k)) in
      let few = few_cleared k large small in
      let (from, to) = Placed-bitmap here in
      let cleared =
        IsHeap-same p m1 m2 ((page, b) ∷ bs)
          (λ a lo hi.
            ground (arith, memset_lem m1 (page + sizeof_bucket) 0 (cleared_bytes (2 ^ k)) a))
          now in
      let slot =
        IsHeap-same p m2 (set_first_free m2 b.bitmap).1 ((page, b) ∷ bs)
          (λ a lo hi. set_first_free_same m2 b.bitmap a (omega arith)) cleared in
      let (list, memory) = first_of_lem page b bs m2 in
      rw (malloc_new_lem p m bs (2 ^ k) f (omega arith) given, list, memory) slot

  -- A bucket that is added leaves a heap, if a frame is free.
  pub malloc_new-IsHeap :
      (free : (f : ℕ) × (1 ≤ f) × (f < p.nb_frames) × (used m p f ≡ false))
      → IsHeap p (malloc_new p m (2 ^ k) bs).2 (malloc_new p m (2 ^ k) bs).1
  malloc_new-IsHeap (g, above, below, unused) = elim (allocate_frame-Allocated p v m pos) [
    | exhausted e all ↦ absurd (ground (arith, all g above below))
    | frame f lo hi free all addr kept ↦ started f (added f lo hi free kept) hi addr
  ]
