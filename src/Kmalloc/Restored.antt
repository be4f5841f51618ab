-- ===== src/Kmalloc/Restored.antt =====
-- `malloc` and then `free` of the block that it gave.
use mathlib.Core.Path.{subst}
use native.Mathlib.Decide.{ℕ_discrete, dec_lt}
use native.Mathlib.Nat.{pow-le-pow_right}
use lkd.Prelude.{
  ℕ, ◌*◌, ◌^◌, ◌≤◌, ◌<◌, some, true, false, ◌==◌, if◌then◌else◌, get_elem?, ◌≡◌, ◌⊎◌, inl, inr, ap,
  ◌∙◌, arith,
}
use lkd.Memory.{Memory}
use lkd.Bitmap.{get_bit, is_empty}
use lkd.Bitmap.Laws.{clear_bit_lem}
use lkd.Pmm.{Pmm, free_frame}
use lkd.Kmalloc.{Bucket, bitmap_offset, new_bucket}
use lkd.Kmalloc.Power.{Least}
use lkd.Kmalloc.Added.{Added}
use lkd.Kmalloc.Malloc.{Buckets, malloc}
use lkd.Kmalloc.Grants.{Grants, AllTaken, reused, grown, malloc-Malloced}
use lkd.Kmalloc.Free.{bucket_at, unlink, free}
use lkd.Kmalloc.Freed.{without_slot, free_block}

-- Every bucket of the list is one that `new_bucket` made in a page above page 0, and is the one that
-- is found at its address.
abbrev pub IsWhole : Buckets → Type 0
IsWhole bs =
    (n address : ℕ) (b : Bucket)
    → get_elem? bs n ≡ some (address, b)
    → (page : ℕ) × (1 ≤ page)
      × (page < 2 ^ 20)
      × (address ≡ 4096 * page)
      × (b ≡ new_bucket (4096 * page) b.power_size)
      × (bucket_at bs (4096 * page) ≡ some b)

-- Which blocks serve a request of 17 to 2048 bytes.
power_range : (size k : ℕ) → 16 < size → size ≤ 2048 → Least size k → (5 ≤ k) × (k < 12)
power_range size k large small (enough, least, tight) =
    let below : 2 ^ k < 2 ^ 12 = ground arith in
    let above : 2 ^ 4 < 2 ^ k = omega arith in
    (
      elim (dec_lt 4 k) [
        | yes more ↦ more
        | no less ↦
            let bound : 2 ^ k ≤ 2 ^ 4 =
              pow-le-pow_right (omega arith) {i = k} {j = 4} (omega arith) in
            absurd (omega arith)
      ],
      elim (dec_lt k 12) [
        | yes less ↦ less
        | no more ↦
            let bound : 2 ^ 12 ≤ 2 ^ k =
              pow-le-pow_right (omega arith) {i = 12} {j = k} (omega arith) in
            absurd (omega arith)
      ],
    )

module _ (p : Pmm) (m : Memory) (bs : Buckets) where
  -- The block is that of a slot `i` of a bucket `b` of the list, and `free` leaves the list and the
  -- memory `cleared`, in which the bucket's bits are those of `m`; but if no byte of its bitmap is
  -- set then, the bucket leaves the list and its frame is freed.
  abbrev pub Restored : ℕ → Memory → Type 0
  Restored block m' =
      (page : ℕ) × (b : Bucket) × (i : ℕ) × (cleared : Memory) × (bucket_at bs (4096 * page)
        ≡ some b)
      × (block ≡ bitmap_offset b i)
      × (free p m' bs block
          ≡ some (
              if is_empty cleared b.bitmap
              then (unlink bs (4096 * page), free_frame p cleared (4096 * page))
              else (bs, cleared)))
      × ((j : ℕ) → get_bit cleared b.bitmap j ≡ get_bit m b.bitmap j)

  -- What `Grants` says of a bucket of the heap and its slot `i`.
  abbrev Granted : ℕ → ℕ → ℕ → Memory → Bucket → Type 0
  Granted page i block m' b =
      (i < b.bitmap.size)
      × (get_bit m b.bitmap i ≡ false)
      × (block ≡ bitmap_offset b i)
      × ((j : ℕ) → get_bit m' b.bitmap j ≡ (if i == j then true else get_bit m b.bitmap j))
      × (bucket_at bs (4096 * page) ≡ some b)

  Granted-Restored :
      (k page i block : ℕ) (m' : Memory)
      → 5 ≤ k
      → k < 12
      → 1 ≤ page
      → page < 2 ^ 20
      → Granted page i block m' (new_bucket (4096 * page) (2 ^ k))
      → Restored block m'
  Granted-Restored k page i block m' large small low high (below, was, ptr, bits, found) =
      let c = new_bucket (4096 * page) (2 ^ k) in
      let cleared = (clear_bit_lem m' c.bitmap i).1 in
      (
        page,
        c,
        i,
        without_slot page k i m',
        found,
        ptr,
        ap (free p m' bs) ptr ∙ free_block p k page i large small low high below m' bs found,
        λ j. elim (ℕ_discrete i j) [
          | yes same ↦ ground (arith, cleared j, ap (get_bit m c.bitmap) same)
          | no other ↦ ground (arith, cleared j, bits j)
        ],
      )

  Grants-Restored :
      (k block : ℕ) (m' : Memory)
      → IsWhole bs
      → 5 ≤ k
      → k < 12
      → Grants m (2 ^ k) bs (block, m')
      → Restored block m'
  Grants-Restored k block m' heap large small (n, address, b, i, at, size, below, was, ptr, bits) =
      let (page, low, high, start, made, found) = heap n address b at in
      Granted-Restored k page i block m' large small low high (
        subst (Granted page i block m') (made ∙ ap (new_bucket (4096 * page)) size)
          (below, was, ptr, bits, found))

  -- A request of 17 to 2048 bytes ends, in a list each of whose buckets is as `new_bucket` makes it
  -- and is found at its page. If every slot of every bucket with blocks of its size is taken, it is
  -- served by the first slot of a bucket that is added in front. Else the list stays as it is, and
  -- `free` of the block that is given clears the block's bit again, with each bit of its bucket as
  -- it was before; a bucket none of whose bitmap's bytes is set then leaves the list, and gives its
  -- frame back.
  pub malloc-Restored :
      (size : ℕ)
      → IsWhole bs
      → 16 < size
      → size ≤ 2048
      → (k : ℕ) × Least size k
        × ((AllTaken m (2 ^ k) bs
              × (r : ℕ × Buckets × Memory) × (malloc p 28 m bs size ≡ some r)
              × Added p m bs (2 ^ k) r)
            ⊎ ((block : ℕ) × (m' : Memory) × (malloc p 28 m bs size ≡ some (block, bs, m'))
                × Restored block m'))
  malloc-Restored size heap large small =
      let (k, least, served) = malloc-Malloced p m bs size (omega arith) in
      let (low, high) = power_range size k large small least in
      (
        k,
        least,
        elim served [
          | reused block result grants ↦
              inr (
                block.0,
                block.1,
                result,
                Grants-Restored k (block.0) (block.1) heap low high grants,
              )
          | grown block result added taken ↦ inl (taken, block, result, added)
        ],
      )
