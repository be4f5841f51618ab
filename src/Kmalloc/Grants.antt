-- ===== src/Kmalloc/Grants.antt =====
-- Which block `malloc` gives.
use mathlib.Core.Path.{subst}
use native.Mathlib.Decide.{ℕ_discrete}
use lkd.Prelude.{
  ℕ, zero, suc, ◌^◌, ◌≤◌, ◌<◌, [], ◌∷◌, Option, none, some, true, false, ◌==◌, if◌then◌else◌,
  get_elem?, ◌≡◌, ◌≢◌, refl, ap, sym, ◌∙◌, inl, inr, arith, Option-cases,
}
use lkd.Memory.{Memory}
use lkd.Bitmap.{Bitmap, get_bit, set_first_free}
use lkd.Bitmap.Scan.{FirstFree, set_first_free_lem}
use lkd.Pmm.{Pmm}
use lkd.Kmalloc.{Bucket, compute_power, bitmap_offset}
use lkd.Kmalloc.Power.{Least, compute_power-Least}
use lkd.Kmalloc.Added.{Added, malloc_new-Added}
use lkd.Kmalloc.Malloc.{Buckets, take_slot, search, malloc, malloc_new}

module _ (m : Memory) (power : ℕ) where
  -- A block of a bucket in the list whose blocks have the size: its slot was free, is taken now,
  -- and no other slot of the bucket has changed.
  abbrev pub Grants : Buckets → ℕ × Memory → Type 0
  Grants bs block =
      (n : ℕ) × (address : ℕ) × (b : Bucket) × (i : ℕ) × (get_elem? bs n ≡ some (address, b))
      × (b.power_size ≡ power)
      × (i < b.bitmap.size)
      × (get_bit m b.bitmap i ≡ false)
      × (block.0 ≡ bitmap_offset b i)
      × ((j : ℕ) → get_bit block.1 b.bitmap j ≡ (if i == j then true else get_bit m b.bitmap j))

  -- Every slot that is ever used, in every bucket with blocks of the size, is taken.
  abbrev pub AllTaken : Buckets → Type 0
  AllTaken bs =
      (n address : ℕ) (b : Bucket)
      → get_elem? bs n ≡ some (address, b)
      → b.power_size ≡ power
      → (j : ℕ) → j < b.bitmap.size
      → get_bit m b.bitmap j ≡ true

  FirstFree-none :
      (b : Bitmap) (r : Option ℕ × Memory)
      → FirstFree m b r
      → r.0 ≡ none
      → (j : ℕ) → j < b.size
      → get_bit m b j ≡ true
  FirstFree-none b (none, m') f e = f.1
  FirstFree-none b (some k, m') f e = ground arith

  FirstFree-some :
      (b : Bitmap) (r : Option ℕ × Memory) (i : ℕ)
      → FirstFree m b r
      → r.0 ≡ some i
      → (i < b.size)
        × (get_bit m b i ≡ false)
        × ((j : ℕ) → get_bit r.1 b j ≡ (if i == j then true else get_bit m b j))
  FirstFree-some b (none, m') i f e = ground arith
  FirstFree-some b (some k, m') i f e =
      let same : k ≡ i = ground arith in rw⁻¹ (same) (f.0.1, f.0.2, f.1)

  matching : (b : Bucket) → b.power_size ≡ power → take_slot m power b ≡ set_first_free m b.bitmap
  unfolding take_slot
  matching b same = ground arith

  other_size : (b : Bucket) → b.power_size ≢ power → take_slot m power b ≡ (none, m)
  unfolding take_slot
  other_size b other = ground arith

  take_slot-none :
      (b : Bucket)
      → (take_slot m power b).0 ≡ none
      → b.power_size ≡ power
      → (j : ℕ) → j < b.bitmap.size
      → get_bit m b.bitmap j ≡ true
  take_slot-none b e same =
      FirstFree-none b.bitmap (set_first_free m b.bitmap) (set_first_free_lem m b.bitmap)
        (sym (ap (λ (r : Option ℕ × Memory). r.0) (matching b same)) ∙ e)

  take_slot-some :
      (b : Bucket) (i : ℕ)
      → (take_slot m power b).0 ≡ some i
      → (b.power_size ≡ power)
        × (i < b.bitmap.size)
        × (get_bit m b.bitmap i ≡ false)
        × ((j : ℕ)
            → get_bit (take_slot m power b).1 b.bitmap j
              ≡ (if i == j then true else get_bit m b.bitmap j))
  take_slot-some b i e = elim (ℕ_discrete b.power_size power) [
    | yes same ↦
        let at_slot = matching b same in
        let (below, free, kept) =
          FirstFree-some b.bitmap (set_first_free m b.bitmap) i (set_first_free_lem m b.bitmap)
            (sym (ap (λ (r : Option ℕ × Memory). r.0) at_slot) ∙ e) in
        (same, below, free, rw at_slot kept)
    | no other ↦ absurd (ground (arith, other_size b other))
  ]

  -- The search gives a slot of the first bucket with blocks of the size that has one free; it fails
  -- only if every slot of every such bucket is taken.
  pub data Searched (bs : Buckets) (r : Option (ℕ × Memory)) : Type 0 where
    found : (block : ℕ × Memory) → r ≡ some block → Grants bs block → Searched bs r
    full : r ≡ none → AllTaken bs → Searched bs r

  AllTaken-cons :
      (address : ℕ) (b : Bucket) (bs : Buckets)
      → (b.power_size ≡ power → (j : ℕ) → j < b.bitmap.size → get_bit m b.bitmap j ≡ true)
      → AllTaken bs
      → AllTaken ((address, b) ∷ bs)
  AllTaken-cons address b bs mine taken zero a c at =
      subst
        (λ (d : Bucket).
          d.power_size ≡ power → (j : ℕ) → j < d.bitmap.size → get_bit m d.bitmap j ≡ true)
        (ap (λ (o : Option (ℕ × Bucket)). elim o [ none ↦ b | some x ↦ x.1 ]) at) mine
  AllTaken-cons address b bs mine taken (suc n) a c at = taken n a c at

  Searched-skip :
      (address : ℕ) (b : Bucket) (bs : Buckets) (r : Option (ℕ × Memory))
      → (take_slot m power b).0 ≡ none
      → Searched bs r
      → Searched ((address, b) ∷ bs) r
  Searched-skip address b bs r e (found block result (n, a, c, i, at, q, lt, free, ptr, kept)) =
      found block result (suc n, a, c, i, at, q, lt, free, ptr, kept)
  Searched-skip address b bs r e (full result taken) =
      full result (AllTaken-cons address b bs (take_slot-none b e) taken)

  search-Searched : (bs : Buckets) → Searched bs (search m power bs)
  unfolding search
  search-Searched [] = full refl λ n a c at same j h. ground arith
  search-Searched ((address, b) ∷ bs) = elim (Option-cases ((take_slot m power b).0)) [
    | inl e ↦
        let skipped : search m power ((address, b) ∷ bs) ≡ search m power bs = rw (e, search) in
        subst (Searched ((address, b) ∷ bs)) (sym skipped)
          (Searched-skip address b bs (search m power bs) e (search-Searched bs))
    | inr (i, e) ↦
        let block : ℕ × Memory = (bitmap_offset b i, (take_slot m power b).1) in
        let given : search m power ((address, b) ∷ bs) ≡ some block = rw (e, search) in
        let (same, below, free, kept) = take_slot-some b i e in
        subst (Searched ((address, b) ∷ bs)) (sym given)
          (found block refl (0, address, b, i, refl, same, below, free, refl, kept))
  ]

module _ (p : Pmm) (m : Memory) (bs : Buckets) (size : ℕ) where
  -- What a call of `malloc` that ends gives, where blocks of `power` bytes are the ones that
  -- serve it.
  pub data Malloced (power : ℕ) (r : Option (ℕ × Buckets × Memory)) : Type 0 where
    reused :
        (block : ℕ × Memory)
        → r ≡ some (block.0, bs, block.1)
        → Grants m power bs block
        → Malloced power r
    grown :
        (block : ℕ × Buckets × Memory)
        → r ≡ some block
        → Added p m bs power block
        → AllTaken m power bs
        → Malloced power r

  served :
      (power : ℕ)
      → 16 ≤ power
      → compute_power 28 size ≡ some power
      → Malloced power (malloc p 28 m bs size)
  unfolding malloc
  served power large e = elim (search-Searched m power bs) [
    | found block result grants ↦ reused block (rw (e, result, malloc)) grants
    | full result taken ↦
        grown (malloc_new p m power bs) (rw (e, result, malloc))
          (malloc_new-Added p m bs power large) taken
  ]

  -- A request of at most 2^31 bytes ends. It is served by blocks of the least power of two from
  -- 16 on that holds it: by a free slot of a bucket of the list, which is taken then, with no
  -- other slot of that bucket changed; or, only if every slot of every bucket with such blocks is
  -- taken, by the first slot of a bucket that is added in front of the list, at the kernel's address
  -- of the frame that the frame allocator gives (of frame 0 where it gives none), with that slot
  -- taken and no other.
  pub malloc-Malloced :
      size ≤ 2 ^ 31 → (k : ℕ) × Least size k × Malloced (2 ^ k) (malloc p 28 m bs size)
  malloc-Malloced small =
      let (k, power, least) = compute_power-Least size small in
      (k, least, served (2 ^ k) least.1 power)
