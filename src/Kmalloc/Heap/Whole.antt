-- ===== src/Kmalloc/Heap/Whole.antt =====
-- A bucket of a heap is found at its own address, by whichever place in the list.
use mathlib.Core.Path.{subst}
use lkd.Prelude.{
  ℕ, zero, suc, ◌+◌, ◌^◌, ◌≤◌, [], ◌∷◌, Option, none, some, get_elem?, ◌≡◌, ◌≢◌, ap, sym, ◌∙◌,
  arith,
}
use lkd.Memory.{Memory}
use lkd.Pmm.{Pmm}
use lkd.Kmalloc.{Bucket, new_bucket}
use lkd.Kmalloc.Malloc.{Buckets}
use lkd.Kmalloc.Free.{bucket_at}
use lkd.Kmalloc.Restored.{IsWhole}
use lkd.Kmalloc.Heap.{Placed, IsPlaced, IsHeap, frame_page}

module _ (p : Pmm) (m : Memory) where
  -- The bucket at index `n`: it is in place, and is found at its address.
  at_index :
      (bs : Buckets) (n address : ℕ) (b : Bucket)
      → IsPlaced p m bs
      → get_elem? bs n ≡ some (address, b)
      → Placed p m address b × (bucket_at bs address ≡ some b)
  unfolding bucket_at
  at_index [] n address b placed e = absurd (ground (arith, e))
  at_index ((a, c) ∷ rest) zero address b (here, own, others) e =
      let same : (a, c) ≡ (address, b) =
        ap (λ (o : Option (ℕ × Bucket)). elim o [ none ↦ (a, c) | some x ↦ x ]) e in
      subst
        (λ (x : ℕ × Bucket).
          Placed p m (x.0) (x.1) × (bucket_at ((a, c) ∷ rest) (x.0) ≡ some (x.1)))
        same (here, ground arith)
  at_index ((a, c) ∷ rest) (suc n) address b (here, own, others) e =
      let (there, found) = at_index rest n address b others e in
      let other : a ≢ address =
        λ same. (let gone = ap (bucket_at rest) same in ground (arith, own, gone, found)) in
      (there, ground (arith, found))

  -- With memory of at most 1 GiB, each bucket of a heap is whole.
  pub IsHeap-IsWhole : (bs : Buckets) → p.nb_frames ≤ 2 ^ 18 → IsHeap p m bs → IsWhole bs
  unfolding new_bucket
  IsHeap-IsWhole bs low heap n address b at =
      let (here, found) = at_index bs n address b heap.placed at in
      let start = here.start in
      let below = here.below in
      let size : b.power_size ≡ 2 ^ here.power = ap (λ (c : Bucket). c.power_size) here.made in
      (
        0xC0000 + here.frame,
        omega arith,
        omega arith,
        start,
        here.made
            ∙ ap (λ a. new_bucket a (2 ^ here.power)) start
            ∙ ap (new_bucket (frame_page here.frame)) (sym size),
        ap (bucket_at bs) (sym start) ∙ found,
      )
