-- ===== src/Pmm/Frames.antt =====
-- `allocate_frame` and `free_frame`: which frame is handed out, and what each does to the others.
use native.Mathlib.Decide.{dec_lt}
use lkd.Prelude.{
  ℕ, zero, suc, ◌+◌, ◌-◌, ◌*◌, ◌/◌, ◌%◌, ◌^◌, ◌≤◌, ◌<◌, Bool, true, false, leb, ◌==◌, if◌then◌else◌,
  u32, ◌≡◌, ◌≢◌, refl, sym, ap, ◌∙◌, arith, inl, inr, Bool-cases,
}
use lkd.Memory.{Memory, p2v}
use lkd.Memory.Address.{v2p_lem, p2v_lem}
use lkd.Bitmap.{get_bit, set_bit}
use lkd.Bitmap.Laws.{get_bit-set_bit, get_bit-clear_bit}
use lkd.Pmm.{Pmm, frame_size, null, allocate_from, allocate_frame, free_frame}

-- The frame is marked as taken.
abbrev pub used : Memory → Pmm → ℕ → Bool
used m p f = get_bit m p.bm f

-- The bitmap has a bit for every frame, and frame addresses fit 32 bits.
pub record IsValid (p : Pmm) : Type 0 where
  pub covered : p.nb_frames ≤ 8 * p.bm.size
  pub addressable : p.nb_frames ≤ 2 ^ 20

-- The frames from `lo` up to `hi` are all taken.
abbrev AllUsed : Memory → Pmm → ℕ → ℕ → Type 0
AllUsed m p lo hi = (f : ℕ) → lo ≤ f → f < hi → used m p f ≡ true

-- What a call of the allocator that searches from `lo` gives: nothing, if every frame is taken;
-- else the lowest free frame, which it takes, and no other.
pub data Allocated (p : Pmm) (m : Memory) (lo : ℕ) (result : ℕ × Memory) : Type 0 where
  exhausted : result ≡ (null, m) → AllUsed m p lo p.nb_frames → Allocated p m lo result
  frame :
      (f : ℕ)
      → lo ≤ f
      → f < p.nb_frames
      → used m p f ≡ false
      → AllUsed m p lo f
      → result.0 ≡ f * frame_size
      → ((j : ℕ) → used result.1 p j ≡ (if f == j then true else used m p j))
      → Allocated p m lo result

Allocated-below :
    {p : Pmm} {m : Memory} {lo : ℕ} {r : ℕ × Memory}
    → used m p lo ≡ true
    → Allocated p m (lo + 1) r
    → Allocated p m lo r
Allocated-below {p} {m} {lo} u (exhausted e all) = exhausted e λ f l h. elim (dec_lt lo f) [
  | yes above ↦ all f (omega arith) h
  | no not_above ↦ let here : f ≡ lo = omega arith in rw here u
]
Allocated-below {p} {m} {lo} u (frame f l h free all addr kept) =
    frame f (omega arith) h free
      (λ j lj hj. elim (dec_lt lo j) [
        | yes above ↦ all j (omega arith) hj
        | no not_above ↦ let here : j ≡ lo = omega arith in rw here u
      ])
      addr kept

module _ (p : Pmm) (v : IsValid p) (m : Memory) where
  take_frame :
      (f : ℕ)
      → f < p.nb_frames
      → used m p f ≡ false
      → Allocated p m f (u32 (f * frame_size), (set_bit m p.bm f).1)
  take_frame f h free =
      let in_bitmap : f / 8 < p.bm.size = omega (arith, v.covered) in
      frame f (omega arith) h free (λ j l u. absurd (omega arith)) (omega (arith, v.addressable))
        (λ j. ground (arith, get_bit-set_bit m p.bm f j))

  allocate_from-Allocated :
      (rounds i : ℕ) → i + rounds ≡ p.nb_frames → Allocated p m i (allocate_from p m i rounds)
  unfolding allocate_from
  allocate_from-Allocated zero i e = exhausted refl (λ f lo hi. absurd (omega arith))
  allocate_from-Allocated (suc rounds) i e = elim (Bool-cases (get_bit m p.bm i)) [
    | inl u ↦ rw u (Allocated-below u (allocate_from-Allocated rounds (i + 1) (omega arith)))
    | inr free ↦ rw free (take_frame i (omega arith) free)
  ]

  -- With a bit for every frame and at least one frame, `allocate_frame` gives `nullptr` and
  -- changes nothing only if every frame but frame 0 is taken; else it gives the address of the
  -- lowest free frame above 0, and takes that one and no other.
  pub allocate_frame-Allocated : 1 ≤ p.nb_frames → Allocated p m 1 (allocate_frame p m)
  unfolding allocate_frame
  allocate_frame-Allocated pos = allocate_from-Allocated (p.nb_frames - 1) 1 (omega arith)

-- A frame that was handed out lies below 4 GiB at a multiple of the frame size, and is taken.
pub Allocated-taken :
    {p : Pmm} {m : Memory} {lo : ℕ} {r : ℕ × Memory}
    → Allocated p m lo r
    → 1 ≤ lo
    → r.0 ≢ null
    → (r.0 % frame_size ≡ 0)
      × (used m p (r.0 / frame_size) ≡ false)
      × (used r.1 p (r.0 / frame_size) ≡ true)
Allocated-taken (exhausted e all) pos ne = absurd (ne (ap (λ r. r.0) e))
Allocated-taken {p} {m} {lo} {r} (frame f l h free all addr kept) pos ne =
    let index : r.0 / frame_size ≡ f = omega arith in
    (omega arith, rw index free, rw index (ground (arith, kept f)))

-- `free_frame` ignores `nullptr` and addresses beyond the last frame; else it frees the frame of the
-- address, physical or in the kernel's half, and keeps every other.
pub used-free_frame :
    (p : Pmm) (m : Memory) (addr j : ℕ)
    → used (free_frame p m addr) p j ≡ (
        if addr == null
        then used m p j
        else if leb p.nb_frames (addr % 2 ^ 30 / frame_size)
        then used m p j
        else if addr % 2 ^ 30 / frame_size == j
        then false
        else used m p j)
unfolding free_frame
used-free_frame p m addr j =
    rw v2p_lem (ground (arith, get_bit-clear_bit m p.bm (addr % 2 ^ 30 / frame_size) j))

module _ (p : Pmm) (v : IsValid p) (m : Memory) (pos : 1 ≤ p.nb_frames) where
  -- Two allocations in a row that both give a frame, with a bit for every frame, give different ones.
  pub allocate_twice_ne :
      let (a, m') = allocate_frame p m in
      let (b, m'') = allocate_frame p m' in a ≢ null → b ≢ null → a ≢ b
  allocate_twice_ne ha hb same =
      let taken = (Allocated-taken (allocate_frame-Allocated p v m pos) (omega arith) ha).2 in
      let free =
        (Allocated-taken (allocate_frame-Allocated p v (allocate_frame p m).1 pos) (omega arith)
          hb).1 in
      let clash : true ≡ false =
        sym taken ∙ ap (λ a. used (allocate_frame p m).1 p (a / frame_size)) same ∙ free in
      cc clash

  -- Freeing a frame that was just handed out, by its address in the kernel's half, gives back the
  -- state of every frame, where memory is at most 1 GiB and every frame has a bit.
  pub free_frame-allocate_frame :
      p.nb_frames ≤ 2 ^ 18
      → let (a, m') = allocate_frame p m in
        a ≢ null → (j : ℕ) → used (free_frame p m' (p2v a)) p j ≡ used m p j
  free_frame-allocate_frame small ne j = restored (allocate_frame-Allocated p v m pos)
    where
      restored :
          Allocated p m 1 (allocate_frame p m)
          → used (free_frame p (allocate_frame p m).1 (p2v (allocate_frame p m).0)) p j ≡ used m p j
      restored (exhausted e all) = absurd (ne (ap (λ r. r.0) e))
      restored (frame f l h free all addr kept) =
          let low : f * frame_size < 2 ^ 30 = omega arith in
          ground (
            arith,
            used-free_frame p (allocate_frame p m).1 (p2v (allocate_frame p m).0) j,
            ap p2v addr,
            p2v_lem (f * frame_size) low,
            kept j,
          )
