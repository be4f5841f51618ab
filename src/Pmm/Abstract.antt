-- ===== src/Pmm/Abstract.antt =====
-- What the frame allocator promises, on the set of the frames that are taken alone: no bitmap and
-- no memory. Any sequence of calls gives the same addresses there as in the code.
use mathlib.Core.Path.{ap₂}
use lkd.Prelude.{
  ℕ, zero, suc, ◌+◌, ◌-◌, ◌*◌, ◌/◌, ◌%◌, ◌^◌, ◌≤◌, ◌<◌, List, [], ◌∷◌, Option, none, some, Bool,
  true, false, leb, ltb, ◌==◌, ◌&&◌, ◌||◌, if◌then◌else◌, ◌≡◌, refl, arith, Bool-cases, inl, inr,
}
use lkd.Memory.{Memory}
use lkd.Bitmap.Laws.{get_bit-set_bit}
use lkd.Pmm.{
  Pmm, frame_size, null, region_frames, allocate_from, allocate_frame, free_frame, set_used,
  set_unused,
}
use lkd.Pmm.Frames.{used, IsValid, used-free_frame}
use lkd.Pmm.Regions.{in_range, used-set_used, used-set_unused}

-- The frames that are taken.
abbrev pub Taken : Type 0
Taken = ℕ → Bool

pub data Op : Type 0 where
  allocate : Op
  release : ℕ → Op
  reserve : ℕ → ℕ → Op
  offer : ℕ → ℕ → Op

-- The lowest frame from `i` on that is not taken, of `rounds` frames.
abbrev pub lowest : Taken → ℕ → ℕ → Option ℕ
lowest t i zero = none
lowest t i (suc rounds) = let rest = lowest t (i + 1) rounds in if t i then rest else some i

-- The frames from that of `addr` on, as many as `size` rounded up.
abbrev pub region : ℕ → ℕ → ℕ → Bool
region addr size j = in_range (addr / frame_size) (region_frames size) j

-- The specification: `frames` frames, of which the first `marked` can be reserved. A call gives an
-- address, or 0 where it returns none.
abbrev pub specified : ℕ → ℕ → Op → Taken → ℕ × Taken
specified frames marked allocate t = elim (lowest t 1 (frames - 1)) [
  | none ↦ (null, t)
  | some f ↦ (f * frame_size, λ j. if f == j then true else t j)
]
specified frames marked (release addr) t =
    let f = addr % 2 ^ 30 / frame_size in
    (null, λ j. if addr == null || leb frames f then t j else if f == j then false else t j)
specified frames marked (reserve addr size) t =
    (null, λ j. if region addr size j && ltb j marked then true else t j)
specified frames marked (offer addr size) t = (null, λ j. if region addr size j then false else t j)

-- The code.
abbrev pub performed : Pmm → Op → Memory → ℕ × Memory
performed p allocate m = allocate_frame p m
performed p (release addr) m = (null, free_frame p m addr)
performed p (reserve addr size) m = (null, set_used p m addr size)
performed p (offer addr size) m = (null, set_unused p m addr size)

-- The addresses that a sequence of calls gives, and the state behind it.
abbrev pub run {ℓ} : {S : Type ℓ} → (Op → S → ℕ × S) → List Op → S → List ℕ × S
run step [] s = ([], s)
run step (op ∷ ops) s =
    let (a, s') = step op s in let (addresses, end) = run step ops s' in (a ∷ addresses, end)

-- The regions that are given lie at addresses of 32 bits.
abbrev pub InReach : List Op → Type 0
InReach [] = Unit
InReach (allocate ∷ ops) = InReach ops
InReach (release addr ∷ ops) = InReach ops
InReach (reserve addr size ∷ ops) = (addr < 2 ^ 32) × InReach ops
InReach (offer addr size ∷ ops) = (addr < 2 ^ 32) × InReach ops

module _ (p : Pmm) (v : IsValid p) where
  -- The bits stand for the set.
  abbrev pub Stands : Memory → Taken → Type 0
  Stands m t = (j : ℕ) → used m p j ≡ t j

  -- The same address, and bits that stand for the set behind the call.
  abbrev pub Refines : ℕ × Memory → ℕ × Taken → Type 0
  Refines (a, m) (b, t) = (a ≡ b) × Stands m t

  allocate_from-Refines :
      (m : Memory) (t : Taken) (rounds i : ℕ)
      → Stands m t
      → i + rounds ≤ p.nb_frames
      → Refines (allocate_from p m i rounds) (elim (lowest t i rounds) [
        | none ↦ (null, t)
        | some f ↦ (f * frame_size, λ j. if f == j then true else t j)
      ])
  unfolding allocate_from
  allocate_from-Refines m t zero i stands le = (refl, stands)
  allocate_from-Refines m t (suc rounds) i stands le = elim (Bool-cases (t i)) [
    | inl taken ↦
        rw (stands i, taken) (allocate_from-Refines m t rounds (i + 1) stands (omega arith))
    | inr free ↦
        rw (stands i, free)
          (
            omega (arith, v.addressable),
            λ j. ground (arith, get_bit-set_bit m p.bm i j, stands j, v.covered),
          )
  ]

  performed-Refines :
      (op : Op) (ops : List Op) (m : Memory) (t : Taken)
      → 1 ≤ p.nb_frames
      → InReach (op ∷ ops)
      → Stands m t
      → Refines (performed p op m) (specified p.nb_frames (8 * p.bm.size) op t) × InReach ops
  unfolding allocate_frame
  performed-Refines allocate ops m t pos reach stands =
      (allocate_from-Refines m t (p.nb_frames - 1) 1 stands (omega arith), reach)
  performed-Refines (release addr) ops m t pos reach stands =
      ((refl, λ j. ground (arith, used-free_frame p m addr j, stands j)), reach)
  performed-Refines (reserve addr size) ops m t pos (fits, reach) stands =
      ((refl, λ j. ground (arith, used-set_used p m addr size j fits, stands j)), reach)
  performed-Refines (offer addr size) ops m t pos (fits, reach) stands =
      ((refl, λ j. ground (arith, used-set_unused p m addr size j fits, stands j)), reach)

  -- Any sequence of calls gives the addresses that the specification gives, and leaves bits that
  -- stand for its set; with a bit for every frame, at least one frame, and regions at addresses of
  -- 32 bits.
  pub run-refines :
      (ops : List Op) (m : Memory) (t : Taken)
      → 1 ≤ p.nb_frames
      → InReach ops
      → Stands m t
      → ((run (performed p) ops m).0 ≡ (run (specified p.nb_frames (8 * p.bm.size)) ops t).0)
        × Stands (run (performed p) ops m).1 (run (specified p.nb_frames (8 * p.bm.size)) ops t).1
  run-refines [] m t pos reach stands = (refl, stands)
  run-refines (op ∷ ops) m t pos reach stands =
      let ((same, stands'), reach') = performed-Refines op ops m t pos reach stands in
      let (rest, end) =
        run-refines ops (performed p op m).1 (specified p.nb_frames (8 * p.bm.size) op t).1 pos
          reach' stands' in
      (ap₂ ◌∷◌ same rest, end)
