-- ===== src/Pmm.antt =====
-- src/pmm/pmm.cpp: the frame allocator. Its state is `_nbFrames` and `_bm`; the bits are in memory.
-- `init` is in Pmm/Init.
pub mod Frames
pub mod Regions
pub mod Abstract
pub mod Init
mod Tests
use lkd.Prelude.{ℕ, zero, suc, ◌+◌, ◌-◌, ◌*◌, ◌/◌, ◌%◌, ◌^◌, Bool, leb, ◌==◌, if◌then◌else◌, u32}
use lkd.Memory.{Memory, v2p}
use lkd.Bitmap.{Bitmap, get_bit, set_bit, clear_bit}

abbrev pub frame_size : ℕ
frame_size = 4096

pub record Pmm : Type 0 where
  pub nb_frames : ℕ
  pub bm : Bitmap

-- `nullptr`.
abbrev pub null : ℕ
null = 0

-- `(regionSize + FRAME_SIZE - 1) / FRAME_SIZE`; the sum is a `uint32_t`.
abbrev pub region_frames : ℕ → ℕ
region_frames region_size = u32 (region_size + frame_size - 1) / frame_size

module _ (p : Pmm) where
  -- The loop of `set_used`: `rounds` frames from `i` on, counted from `base`.
  unfoldable pub set_used_from : Memory → ℕ → ℕ → ℕ → Memory
  set_used_from m base i zero = m
  set_used_from m base i (suc rounds) =
      set_used_from (set_bit m p.bm (u32 (base + i))).1 base (i + 1) rounds

  unfoldable pub set_unused_from : Memory → ℕ → ℕ → ℕ → Memory
  set_unused_from m base i zero = m
  set_unused_from m base i (suc rounds) =
      set_unused_from (clear_bit m p.bm (u32 (base + i))).1 base (i + 1) rounds

  unfoldable pub set_used : Memory → ℕ → ℕ → Memory
  set_used m region_addr region_size =
      set_used_from m (region_addr / frame_size) 0 (region_frames region_size)

  unfoldable pub set_unused : Memory → ℕ → ℕ → Memory
  set_unused m region_addr region_size =
      set_unused_from m (region_addr / frame_size) 0 (region_frames region_size)

  -- The loop of `allocate_frame` at frame `i`, with `rounds` frames left.
  unfoldable pub allocate_from : Memory → ℕ → ℕ → ℕ × Memory
  allocate_from m i zero = (null, m)
  allocate_from m i (suc rounds) =
      let rest = allocate_from m (i + 1) rounds in
      if get_bit m p.bm i then rest else (u32 (i * frame_size), (set_bit m p.bm i).1)

  -- The address of the frame, physical, or `null`.
  unfoldable pub allocate_frame : Memory → ℕ × Memory
  allocate_frame m = allocate_from m 1 (p.nb_frames - 1)

  unfoldable pub free_frame : Memory → ℕ → Memory
  free_frame m addr =
      let frame = v2p addr / frame_size in
      if addr == null then m else if leb p.nb_frames frame then m else (clear_bit m p.bm frame).1
