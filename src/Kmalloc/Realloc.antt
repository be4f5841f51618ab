-- ===== src/Kmalloc/Realloc.antt =====
-- `kmalloc::realloc` and `kmalloc::calloc` of src/vmm/kmalloc.cpp.
use lkd.Prelude.{
  ℕ, ◌+◌, ◌*◌, ◌^◌, ◌≤◌, ◌<◌, Option, none, some, ltb, leb, ◌==◌, if◌then◌else◌, u32, ◌≡◌, ◌⊎◌, inl,
  inr, refl, arith,
}
use native.Mathlib.Decide.{ℕ_discrete}
use lkd.Memory.{Memory}
use lkd.Strings.{memset, memcpy}
use lkd.Strings.Blocks.{memset_lem}
use lkd.Pmm.{Pmm, null}
use lkd.Kmalloc.{Bucket, page_begin}
use lkd.Kmalloc.Malloc.{Buckets, malloc}
use lkd.Kmalloc.Grants.{reused, grown, malloc-Malloced}
use lkd.Kmalloc.Free.{bucket_at, free}

module _ (p : Pmm) (fuel : ℕ) (m : Memory) (buckets : Buckets) where
  -- The block is moved: a new one, the old one's bytes, and the old one freed.
  unfoldable pub move_block : ℕ → ℕ → Bucket → Option (ℕ × Buckets × Memory)
  move_block ptr size current = elim (malloc p fuel m buckets size) [
    | none ↦ none
    | some r ↦
        let freed : Option (ℕ × Buckets × Memory) =
          elim (free p (memcpy r.2 r.0 ptr current.power_size) r.1 ptr) [
            | none ↦ none
            | some s ↦ some (r.0, s.0, s.1)
          ] in
        if r.0 == null then some (null, r.1, r.2) else freed
  ]

  unfoldable pub realloc : ℕ → ℕ → Option (ℕ × Buckets × Memory)
  realloc ptr size =
      let freed : Option (ℕ × Buckets × Memory) = elim (free p m buckets ptr) [
        | none ↦ none
        | some s ↦ some (null, s.0, s.1)
      ] in
      let resized : Option (ℕ × Buckets × Memory) =
        elim (bucket_at buckets (page_begin ptr 0x1000)) [
          | none ↦ none
          | some current ↦
              let moved = move_block ptr size current in
              if leb size current.power_size then some (ptr, buckets, m) else moved
        ] in
      if size == 0 then freed else if ptr == null then malloc p fuel m buckets size else resized

  -- The product is checked against 64 bits, and cut to a `size_t` for `malloc` and `memset`.
  unfoldable pub calloc : ℕ → ℕ → Option (ℕ × Buckets × Memory)
  calloc nmemb size =
      let result = nmemb * size in
      let cleared : Option (ℕ × Buckets × Memory) = elim (malloc p fuel m buckets (u32 result)) [
        | none ↦ none
        | some r ↦
            if r.0 == null
            then some (null, r.1, r.2)
            else some (r.0, r.1, memset r.2 r.0 0 (u32 result))
      ] in
      if ltb result (2 ^ 64) then cleared else some (null, buckets, m)

module _ (p : Pmm) (m : Memory) (buckets : Buckets) (nmemb size : ℕ)
    (small : nmemb * size ≤ 2 ^ 31) where
  malloc_ends : (r : ℕ × Buckets × Memory) × (malloc p 28 m buckets (u32 (nmemb * size)) ≡ some r)
  malloc_ends =
      let (k, least, served) = malloc-Malloced p m buckets (u32 (nmemb * size)) (omega arith) in
      elim served [
        | reused block result grants ↦ (_, result)
        | grown block result added taken ↦ (_, result)
      ]

  calloc_served :
      (r : ℕ × Buckets × Memory)
      → malloc p 28 m buckets (u32 (nmemb * size)) ≡ some r
      → calloc p 28 m buckets nmemb size ≡ (
          if r.0 == null
          then some (null, r.1, r.2)
          else some (r.0, r.1, memset r.2 r.0 0 (u32 (nmemb * size))))
  unfolding calloc
  calloc_served r e = rw e (ground arith)

  -- `calloc` of at most 2^31 bytes in all ends, and gives `nullptr`, or a block that runs past the
  -- end of the 32-bit addresses, or memory whose bytes are all 0.
  pub calloc_lem :
      (r : ℕ × Buckets × Memory) × (calloc p 28 m buckets nmemb size ≡ some r)
      × ((r.0 ≡ null)
          ⊎ (2 ^ 32 < r.0 + nmemb * size)
          ⊎ ((a : ℕ) → r.0 ≤ a → a < r.0 + nmemb * size → r.2 a ≡ 0))
  calloc_lem =
      let (r, e) = malloc_ends in
      elim (ℕ_discrete r.0 0) [
        | yes nothing ↦ ((null, r.1, r.2), ground (arith, calloc_served r e), inl refl)
        | no given ↦
            let cleared : Memory = memset r.2 r.0 0 (u32 (nmemb * size)) in
            (
              (r.0, r.1, cleared),
              ground (arith, calloc_served r e),
              inr (inr (λ a from to. ground (arith, memset_lem r.2 r.0 0 (u32 (nmemb * size)) a))),
            )
      ]
