-- ===== src/Process/Spaces.antt =====
-- The frames of a new process: its stack's, and the one of its kernel's stack.
use lkd.Prelude.{ℕ, ◌+◌, ◌/◌, ◌%◌, ◌^◌, ◌≤◌, ◌<◌, some, false, u32, ◌≡◌, ◌≢◌, refl, ap, ◌∙◌, arith}
use native.Mathlib.Decide.{ℕ_discrete, dec_lt}
use lkd.Memory.{Memory, p2v}
use lkd.Pmm.{Pmm, null, allocate_frame, frame_size}
use lkd.Pmm.Frames.{IsValid, Allocated, exhausted, frame, used, allocate_frame-Allocated}
use lkd.Paging.{copy, map_page}
use lkd.Paging.Walk.{user_walk}
use lkd.Paging.Mapping.{HasTable, LetsUsers, walk-map_page, user_walk-map_page}
use lkd.Kernel.{Kernel}
use lkd.Process.Create.{get_frame, map_stack, create_space}

module _ (p : Pmm) (v : IsValid p) (m : Memory) (pos : 1 ≤ p.nb_frames) where
  abbrev Next : Type 0
  Next =
      let b = (allocate_frame p (allocate_frame p m).1).0 in
      (b ≡ (allocate_frame p m).0 + frame_size) × (b % frame_size ≡ 0) × (b < 2 ^ 32)

  -- The frame behind the one that was handed out is the next one, if it is free.
  next_frame :
      (allocate_frame p m).0 ≢ null
      → used m p ((allocate_frame p m).0 / frame_size + 1) ≡ false
      → (allocate_frame p m).0 / frame_size + 1 < p.nb_frames
      → Next
  next_frame given free below =
      from (allocate_frame-Allocated p v m pos)
        (allocate_frame-Allocated p v (allocate_frame p m).1 pos)
    where
      from :
          Allocated p m 1 (allocate_frame p m)
          → Allocated p (allocate_frame p m).1 1 (allocate_frame p (allocate_frame p m).1)
          → Next
      from (exhausted e all) second = absurd (given (ap (λ r. r.0) e))
      from (frame f l lt was_free all addr kept) (exhausted e all') =
          let behind : (allocate_frame p m).0 / frame_size + 1 ≡ f + 1 = omega arith in
          let still : used m p (f + 1) ≡ false = rw (← behind) free in
          absurd (ground (arith, still, all' (f + 1) (omega arith) (omega arith), kept (f + 1)))
      from (frame f l lt was_free all addr kept) (frame g l' lt' free' all' addr' kept') =
          let behind : (allocate_frame p m).0 / frame_size + 1 ≡ f + 1 = omega arith in
          let still : used m p (f + 1) ≡ false = rw (← behind) free in
          elim (dec_lt g (f + 1)) [
            | yes low ↦ elim (ℕ_discrete g f) [
              | yes same ↦ absurd (ground (arith, free', kept g))
              | no other ↦ absurd (ground (arith, free', kept g, all g l' (omega arith)))
            ]
            | no high ↦ elim (dec_lt (f + 1) g) [
              | yes above ↦
                  absurd (ground (arith, still, all' (f + 1) (omega arith) above, kept (f + 1)))
              | no equal ↦ (
                omega (arith, addr, addr'),
                omega (arith, addr'),
                omega (arith, addr', v.addressable),
              )
            ]
          ]

-- Where the frame behind that of a new process's stack is free, it becomes the one of its kernel's
-- stack, and through the second page of the process's own stack a program reaches it; with a bit for
-- every frame, all of them below 4 GiB, a copied directory at a page's start, and a table for the
-- page below 1 GiB that is not the directory and lets programs through, or the next free frame for
-- one.
pub stack_reaches_kernel :
    (k : Kernel) (kernel_pd : ℕ)
    → IsValid k.pmm
    → 1 ≤ k.pmm.nb_frames
    → let (pd, m) = copy k.pmm k.memory kernel_pd in
      let (stack_ptr, m1) = allocate_frame k.pmm m in
      let (kernel_ptr, m2) = allocate_frame k.pmm m1 in
      let first = map_page k.pmm m2 pd stack_ptr 0xbfff0000 0x7 in
      stack_ptr ≢ null
      → used m k.pmm (stack_ptr / frame_size + 1) ≡ false
      → stack_ptr / frame_size + 1 < k.pmm.nb_frames
      → p2v pd % 4096 ≡ 0
      → HasTable k.pmm first (p2v pd) 0xbfff1000
      → LetsUsers k.pmm first (p2v pd) 0xbfff1000
      → (k' : Kernel) × (create_space kernel_pd k ≡ some ((pd, kernel_ptr), k'))
        × (user_walk k'.memory (p2v pd) 0xbfff1000 ≡ some kernel_ptr)
unfolding create_space get_frame map_stack
stack_reaches_kernel k kernel_pd v pos given free below aligned has users =
    let (pd, m) = copy k.pmm k.memory kernel_pd in
    let (stack_ptr, m1) = allocate_frame k.pmm m in
    let (kernel_ptr, m2) = allocate_frame k.pmm m1 in
    let (next, page, fits) = next_frame k.pmm v m pos given free below in
    let same : u32 (stack_ptr + 0x1000) ≡ kernel_ptr = omega (arith, next, fits) in
    let first = map_page k.pmm m2 pd stack_ptr 0xbfff0000 0x7 in
    (
      _,
      refl,
      ap (λ f. user_walk (map_page k.pmm first pd f 0xbfff1000 0x7) (p2v pd) 0xbfff1000) same
          ∙ user_walk-map_page k.pmm first pd kernel_ptr 0xbfff1000 7 aligned fits 0xbfff1000 refl
              refl has users
          ∙ walk-map_page k.pmm first pd kernel_ptr 0xbfff1000 7 aligned fits 0xbfff1000 refl refl
              has
          ∙ ap some (omega (arith, page)),
    )
