-- ===== src/Kmalloc/Heap/Data.antt =====
-- What `malloc` and `free` write: bits of the buckets and of the frame allocator, and a page that was
-- free. The bytes of the blocks stay.
use mathlib.Core.Path.{subst}
use native.Mathlib.Decide.{ℕ_discrete}
use lkd.Prelude.{
  ℕ, zero, suc, ◌+◌, ◌-◌, ◌*◌, ◌/◌, ◌^◌, ◌≤◌, ◌<◌, [], ◌∷◌, none, some, false, ◌≡◌, ◌⊎◌, inl, inr,
  refl, ap, sym, ◌∙◌, arith, Option-cases,
}
use lkd.Memory.{Memory, v2p}
use lkd.Bitmap.{Bitmap, set_bit, clear_bit, set_first_free, first_free_from}
use lkd.Bitmap.Scan.{first_free_from-some}
use lkd.Bitmap.Laws.{set_bit_lem, clear_bit_lem}
use lkd.Pmm.{Pmm, frame_size, allocate_from, allocate_frame, free_frame}
use lkd.Kmalloc.{Bucket, new_bucket, sizeof_bucket}
use lkd.Kmalloc.Malloc.{Buckets, take_slot, search, malloc_new}
use lkd.Kmalloc.Free.{bucket_at, free}
use lkd.Kmalloc.Heap.{frame_page, Placed, IsPlaced, Placed-bitmap}
use lkd.Kmalloc.Heap.Give.{set_first_free_same}
use lkd.Strings.{memset}
use lkd.Strings.Blocks.{memset_lem}
use lkd.Pmm.Frames.{used}
use lkd.Kmalloc.Layout.{bitmap_in_page}
use lkd.Kmalloc.Heap.Grow.{cleared_bytes, few_cleared, other_frame, malloc_new_lem, first_of_lem}

-- The addresses that are not a bitmap's.
abbrev pub Outside : Bitmap → ℕ → Type 0
Outside b a = (a < b.ptr) ⊎ (b.ptr + b.size ≤ a)

-- The addresses that are not those of a bitmap's bits below its size.
abbrev pub Unused : Bitmap → ℕ → Type 0
Unused b a = (a < b.ptr) ⊎ (b.ptr + (b.size + 7) / 8 ≤ a)

set_first_free-Unused :
    (m : Memory) (b : Bitmap) (a : ℕ) → Unused b a → (set_first_free m b).1 a ≡ m a
unfolding set_first_free set_bit
set_first_free-Unused m b a out = elim (Option-cases (first_free_from m b b.size 0)) [
  | inl e ↦ ground (arith, e)
  | inr (i, e) ↦
      let (lo, hi, free, before) = first_free_from-some m b b.size 0 i e in ground (arith, e)
]

pub clear_bit-Unused :
    (m : Memory) (b : Bitmap) (i a : ℕ) → i < b.size → Unused b a → (clear_bit m b i).1 a ≡ m a
unfolding clear_bit
clear_bit-Unused m b i a below out = ground arith

allocate_from_same :
    (p : Pmm) (m : Memory) (i rounds a : ℕ)
    → Outside p.bm a
    → (allocate_from p m i rounds).1 a ≡ m a
unfolding allocate_from
allocate_from_same p m i zero a out = refl
allocate_from_same p m i (suc rounds) a out =
    ground (arith, allocate_from_same p m (i + 1) rounds a out, (set_bit_lem m p.bm i).2 a out)

pub free_frame_same :
    (p : Pmm) (m : Memory) (addr a : ℕ) → Outside p.bm a → free_frame p m addr a ≡ m a
unfolding free_frame
free_frame_same p m addr a out =
    ground (arith, (clear_bit_lem m p.bm (v2p addr / frame_size)).2 a out)

module _ (p : Pmm) (m : Memory) where
  -- A byte behind the bits of a bucket that are used is none of the used bits of any bucket.
  pub data_outside :
      {q address : ℕ} {b c : Bucket}
      → Placed p m q c
      → Placed p m address b
      → (address ≡ q → b ≡ c)
      → (a : ℕ) → c.bitmap.ptr + (c.bitmap.size + 7) / 8 ≤ a
      → a < q + 4096
      → Unused b.bitmap a
  data_outside {q} {address} {b} {c} mine other same a behind inside = elim (ℕ_discrete address q) [
    | yes equal ↦ inr (
        subst (λ (d : Bucket). d.bitmap.ptr + (d.bitmap.size + 7) / 8 ≤ a) (sym (same equal))
          behind)
    | no apart ↦
        let (from, to) = Placed-bitmap other in
        let (low, high) = Placed-bitmap mine in
        let start = mine.start in let start' = other.start in omega arith
  ]

  pub search_data :
      (power : ℕ) (bs : Buckets) (block : ℕ × Memory) (q : ℕ) (c : Bucket)
      → IsPlaced p m bs
      → Placed p m q c
      → ((d : Bucket) → bucket_at bs q ≡ some d → d ≡ c)
      → search m power bs ≡ some block
      → (a : ℕ) → c.bitmap.ptr + (c.bitmap.size + 7) / 8 ≤ a
      → a < q + 4096
      → block.1 a ≡ m a
  unfolding search take_slot bucket_at
  search_data power [] block q c placed mine same e a behind inside = absurd (ground (arith, e))
  search_data power ((address, b) ∷ rest) block q c (here, own, others) mine same e a behind
        inside =
      let out : Unused b.bitmap a =
        data_outside mine here (λ equal. same b (ground (arith, equal))) a behind inside in
      let kept = set_first_free-Unused m b.bitmap a out in
      elim (Option-cases ((take_slot m power b).0)) [
        | inl full ↦
            search_data power rest block q c others mine
              (λ d at. elim (ℕ_discrete address q) [
                | yes equal ↦
                    let gone : bucket_at rest q ≡ none =
                      subst (λ x. bucket_at rest x ≡ none) equal own in
                    absurd (ground (arith, gone, at))
                | no other ↦ same d (ground (arith, at))
              ])
              (sym (rw (full, search) refl) ∙ e) a behind inside
        | inr (i, free) ↦ ground (arith, e, free, kept)
      ]

  -- A bucket that is added writes the page of a frame that was free.
  pub grown_data :
      (bs : Buckets) (k f q : ℕ) (c : Bucket)
      → 4 ≤ k
      → k < 12
      → f < 2 ^ 18
      → (allocate_frame p m).0 ≡ f * 4096
      → used m p f ≡ false
      → Placed p m q c
      → (a : ℕ) → q ≤ a
      → a < q + 4096
      → (malloc_new p m (2 ^ k) bs).2 a ≡ m a
  unfolding allocate_frame
  grown_data bs k f q c large small low given unused mine a lo hi =
      let page = frame_page f in
      let b = new_bucket page (2 ^ k) in
      let m1 = (allocate_frame p m).1 in
      let n = cleared_bytes (2 ^ k) in
      let m2 = memset m1 (page + sizeof_bucket) 0 n in
      let few = few_cleared k large small in
      let (ptr, size) = bitmap_in_page k (0xC0000 + f) large small in
      let start = mine.start in
      let apart = mine.apart in
      let other = other_frame p m f unused mine.frame mine.taken in
      ap (λ (r : ℕ × Buckets × Memory). r.2 a) (malloc_new_lem p m bs (2 ^ k) f low given)
      ∙ ap (λ (n : Memory). n a) (first_of_lem page b bs m2).1
      ∙ set_first_free_same m2 b.bitmap a (omega arith)
      ∙ ground (arith, memset_lem m1 (page + sizeof_bucket) 0 n a)
      ∙ allocate_from_same p m 1 (p.nb_frames - 1) a (omega arith)
