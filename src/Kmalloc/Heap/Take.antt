-- ===== src/Kmalloc/Heap/Take.antt =====
-- `free` keeps the heap: the block's slot is cleared, and a bucket without a taken one leaves.
use native.Mathlib.Decide.{ℕ_discrete}
use lkd.Prelude.{
  ℕ, ◌/◌, ◌%◌, ◌^◌, ◌≤◌, [], ◌∷◌, Option, none, some, true, false, ◌==◌, if◌then◌else◌, ◌≡◌, ◌≢◌,
  refl, ap, ◌∙◌, arith,
}
use mathlib.Core.Path.{subst}
use lkd.Printing.Stack.{ne→==false}
use lkd.Memory.{Memory}
use lkd.Bitmap.{clear_bit}
use lkd.Bitmap.Laws.{clear_bit_lem}
use lkd.Pmm.{Pmm, free_frame}
use lkd.Pmm.Frames.{used, used-free_frame}
use lkd.Kmalloc.{Bucket}
use lkd.Kmalloc.Malloc.{Buckets}
use lkd.Kmalloc.Free.{bucket_at, unlink, remove_bucket}
use lkd.Kmalloc.Heap.{
  frame_page, Placed, IsPlaced, IsHeap, IsPlaced-keeps, IsHeap-same, Placed-bitmap,
}

unlink-none : (bs : Buckets) (a c : ℕ) → bucket_at bs c ≡ none → bucket_at (unlink bs a) c ≡ none
unfolding bucket_at unlink
unlink-none [] a c e = refl
unlink-none ((address, b) ∷ rest) a c e = ground (arith, unlink-none rest a c)

module _ (p : Pmm) (m : Memory) where
  pub found-Placed :
      (bs : Buckets) (a : ℕ) (b : Bucket)
      → IsPlaced p m bs
      → bucket_at bs a ≡ some b
      → Placed p m a b
  unfolding bucket_at
  found-Placed [] a b placed e = absurd (ground (arith, e))
  found-Placed ((address, c) ∷ rest) a b (here, own, others) e = elim (ℕ_discrete address a) [
    | yes same ↦
        let found : some c ≡ some b = ground (arith, e) in
        let same_bucket : c ≡ b =
          ap (λ (o : Option Bucket). elim o [ none ↦ c | some x ↦ x ]) found in
        subst (Placed p m a) same_bucket (subst (λ x. Placed p m x c) same here)
    | no other ↦ found-Placed rest a b others (ground (arith, e))
  ]

  unlink-IsPlaced :
      (bs : Buckets) (a : ℕ)
      → IsPlaced p m bs
      → IsPlaced p m (unlink bs a) × (bucket_at (unlink bs a) a ≡ none)
  unfolding unlink bucket_at
  unlink-IsPlaced [] a placed = (tt, refl)
  unlink-IsPlaced ((address, c) ∷ rest) a (here, own, others) =
      let (kept, gone) = unlink-IsPlaced rest a others in
      elim (ℕ_discrete address a) [
        | yes same ↦
            let test : (address == a) ≡ true = ground (arith, same) in
            rw test (others, subst (λ x. bucket_at rest x ≡ none) same own)
        | no other ↦
            let test : (address == a) ≡ false = ne→==false address a other in
            rw (test, test) ((here, unlink-none rest a address own, kept), gone)
      ]

module _ (p : Pmm) (m : Memory) (bs : Buckets) (low : p.nb_frames ≤ 2 ^ 18) (heap : IsHeap p m bs)
    (a : ℕ) (b : Bucket) (found : bucket_at bs a ≡ some b) where
  pub cleared-IsHeap : (i : ℕ) → IsHeap p (clear_bit m b.bitmap i).1 bs
  cleared-IsHeap i =
      let here = found-Placed p m bs a b heap.placed found in
      let (from, to) = Placed-bitmap here in
      let apart = here.apart in
      IsHeap-same p m (clear_bit m b.bitmap i).1 bs
        (λ x lo hi. (clear_bit_lem m b.bitmap i).2 x (omega arith)) heap

  -- The frame of a bucket that leaves the list is free, and every other as before.
  freed :
      (here : Placed p m a b)
      → (j : ℕ) → used (free_frame p m a) p j ≡ (if here.frame == j then false else used m p j)
  freed here j =
      let start = here.start in
      let below = here.below in
      let index : a % 2 ^ 30 / 4096 ≡ here.frame = omega arith in
      used-free_frame p m a j ∙ rw index (ground arith)

  pub removed-IsHeap : IsHeap p (remove_bucket p m bs a).1 (remove_bucket p m bs a).0
  unfolding remove_bucket
  removed-IsHeap =
      let here = found-Placed p m bs a b heap.placed found in
      let start = here.start in
      let apart = here.apart in
      let (kept, gone) = unlink-IsPlaced p m bs a heap.placed in
      record {
        bitmap = λ x lo hi.
            (let (g, taken, from, to) = heap.bitmap x lo hi in
              let other : here.frame ≢ g = λ e. ground arith in
              (g, ground (arith, freed here g), from, to));
        placed =
            IsPlaced-keeps p m (free_frame p m a) (unlink bs a)
              (λ g there taken.
                let other : here.frame ≢ g = λ e.
                  there (
                    subst (λ x. bucket_at (unlink bs a) x ≡ none) (start ∙ ap frame_page e) gone) in
                ground (arith, freed here g))
              kept;
      }
