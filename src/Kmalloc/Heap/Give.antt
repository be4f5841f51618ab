-- ===== src/Kmalloc/Heap/Give.antt =====
-- `malloc` keeps the heap: a block of a bucket of the list, or of a bucket that is added.
use lkd.Prelude.{
  ℕ, ◌+◌, ◌≤◌, ◌<◌, [], ◌∷◌, some, ◌≡◌, ◌⊎◌, inl, inr, refl, sym, ◌∙◌, arith, Option-cases,
}
use lkd.Memory.{Memory}
use lkd.Bitmap.{Bitmap, first_free_from, set_first_free}
use lkd.Bitmap.Laws.{set_bit_lem}
use lkd.Pmm.{Pmm}
use lkd.Kmalloc.{Bucket}
use lkd.Kmalloc.Malloc.{Buckets, take_slot, search}
use lkd.Kmalloc.Heap.{Placed, IsPlaced, Placed-bitmap}

pub set_first_free_same :
    (m : Memory) (b : Bitmap) (a : ℕ)
    → (a < b.ptr) ⊎ (b.ptr + b.size ≤ a)
    → (set_first_free m b).1 a ≡ m a
unfolding set_first_free
set_first_free_same m b a out = elim (Option-cases (first_free_from m b b.size 0)) [
  | inl e ↦ ground (arith, e)
  | inr (i, e) ↦ ground (arith, e, (set_bit_lem m b i).2 a out)
]

module _ (p : Pmm) (m : Memory) (power : ℕ) where
  take_slot_same :
      {address : ℕ} {b : Bucket}
      → Placed p m address b
      → (a : ℕ) → p.bm.ptr ≤ a
      → a < p.bm.ptr + p.bm.size
      → (take_slot m power b).1 a ≡ m a
  unfolding take_slot
  take_slot_same {address} {b} here a lo hi =
      let (from, to) = Placed-bitmap here in
      let apart = here.apart in ground (arith, set_first_free_same m b.bitmap a)

  -- A block of the list is taken in its bucket's page.
  pub search_same :
      (bs : Buckets) (block : ℕ × Memory)
      → IsPlaced p m bs
      → search m power bs ≡ some block
      → (a : ℕ) → p.bm.ptr ≤ a
      → a < p.bm.ptr + p.bm.size
      → block.1 a ≡ m a
  unfolding search
  search_same [] block placed e a lo hi = absurd (ground (arith, e))
  search_same ((address, b) ∷ rest) block (here, own, others) e a lo hi =
      let mine = take_slot_same here a lo hi in
      elim (Option-cases ((take_slot m power b).0)) [
        | inl full ↦ search_same rest block others (sym (rw (full, search) refl) ∙ e) a lo hi
        | inr (i, free) ↦ ground (arith, e, free, mine)
      ]
