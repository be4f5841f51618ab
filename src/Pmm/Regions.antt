-- ===== src/Pmm/Regions.antt =====
-- `set_used` and `set_unused`: which frames a region of memory comes to.
use lkd.Prelude.{
  ℕ, zero, suc, ◌+◌, ◌-◌, ◌*◌, ◌/◌, ◌%◌, ◌^◌, ◌≤◌, ◌<◌, Bool, true, false, leb, ltb, if◌then◌else◌,
  ◌&&◌, u32, ◌≡◌, arith,
}
use lkd.Memory.{Memory}
use lkd.Bitmap.{set_bit, clear_bit}
use lkd.Bitmap.Laws.{holds, get_bit-set_bit, get_bit-clear_bit}
use lkd.Pmm.{Pmm, frame_size, region_frames, set_used_from, set_unused_from, set_used, set_unused}
use lkd.Pmm.Frames.{used}

-- `j` is one of the `n` frames from `base` on.
abbrev pub in_range : ℕ → ℕ → ℕ → Bool
in_range base n j = leb base j && ltb j (base + n)

used-set_used_from :
    (p : Pmm) (m : Memory) (base i n j : ℕ)
    → base + i + n ≤ 2 ^ 32
    → used (set_used_from p m base i n) p j
      ≡ (if in_range (base + i) n j && holds p.bm j then true else used m p j)
unfolding set_used_from
used-set_used_from p m base i zero j h = ground arith
used-set_used_from p m base i (suc n) j h = ground (
  arith,
  used-set_used_from p (set_bit m p.bm (u32 (base + i))).1 base (i + 1) n j,
  get_bit-set_bit m p.bm (u32 (base + i)) j,
)

used-set_unused_from :
    (p : Pmm) (m : Memory) (base i n j : ℕ)
    → base + i + n ≤ 2 ^ 32
    → used (set_unused_from p m base i n) p j
      ≡ (if in_range (base + i) n j then false else used m p j)
unfolding set_unused_from
used-set_unused_from p m base i zero j h = ground arith
used-set_unused_from p m base i (suc n) j h = ground (
  arith,
  used-set_unused_from p (clear_bit m p.bm (u32 (base + i))).1 base (i + 1) n j,
  get_bit-clear_bit m p.bm (u32 (base + i)) j,
)

module _ (p : Pmm) (m : Memory) (addr size j : ℕ) (fits : addr < 2 ^ 32) where
  -- `set_used` takes the frames from the first one of a region below 4 GiB on, as many as its
  -- size rounded up, if they have a bit, and keeps every other.
  pub used-set_used : used (set_used p m addr size) p j ≡ (
      if in_range (addr / frame_size) (region_frames size) j && holds p.bm j
      then true
      else used m p j)
  unfolding set_used
  used-set_used =
      ground (arith, used-set_used_from p m (addr / frame_size) 0 (region_frames size) j)

  -- `set_unused` frees the frames from the first one of a region below 4 GiB on, as many as its
  -- size rounded up, and keeps every other.
  pub used-set_unused :
      used (set_unused p m addr size) p j
      ≡ (if in_range (addr / frame_size) (region_frames size) j then false else used m p j)
  unfolding set_unused
  used-set_unused =
      ground (arith, used-set_unused_from p m (addr / frame_size) 0 (region_frames size) j)

-- `set_used` takes the frame of every byte of a region that starts at a frame's first byte, where
-- the size is not rounded up past 32 bits and the bitmap has the frames.
pub set_used_covers :
    (p : Pmm) (m : Memory) (addr size a : ℕ)
    → addr + size ≤ 2 ^ 32
    → size ≤ 2 ^ 32 - frame_size
    → addr % frame_size ≡ 0
    → addr ≤ a
    → a < addr + size
    → a / frame_size < 8 * p.bm.size
    → used (set_used p m addr size) p (a / frame_size) ≡ true
set_used_covers p m addr size a fits round aligned lo hi covered =
    ground (arith, used-set_used p m addr size (a / frame_size))

-- A region that starts inside a frame reaches one frame more than `set_used` takes, where its size
-- past whole frames does not fit into the rest of its first one: that frame keeps its state.
pub set_used_misses_last :
    (p : Pmm) (m : Memory) (addr size : ℕ)
    → addr + size ≤ 2 ^ 32
    → 0 < size
    → size ≤ 2 ^ 32 - frame_size
    → frame_size < addr % frame_size + ((size - 1) % frame_size + 1)
    → let last = (addr + size - 1) / frame_size in
      used (set_used p m addr size) p last ≡ used m p last
set_used_misses_last p m addr size fits pos round spill =
    ground (arith, used-set_used p m addr size ((addr + size - 1) / frame_size))
