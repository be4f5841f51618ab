-- ===== src/Pmm/Init/Reserved.antt =====
-- Which frames are taken behind `PMM::init`, and that those of the kernel are not.
use lkd.Prelude.{
  ℕ, ◌+◌, ◌-◌, ◌*◌, ◌/◌, ◌^◌, ◌≤◌, ◌<◌, Bool, true, false, if◌then◌else◌, ◌&&◌, ◌||◌, u32, ◌≡◌,
  refl, ◌∙◌, arith,
}
use lkd.Memory.{Memory, IsBytes}
use lkd.Paging.Entries.{page_mask}
use lkd.Bitmap.Laws.{holds}
use lkd.Pmm.{Pmm, frame_size, region_frames, set_used}
use lkd.Pmm.Frames.{used}
use lkd.Pmm.Regions.{in_range, used-set_used}
use lkd.Pmm.Init.{
  mmap_entry, entry_address, sizeof_entry, memory_available, mmap_rounds, release_from,
  kernel_end_page, bitmap_pages, mark_frames,
}
use lkd.Pmm.Init.Marks.{MapApart, freed_from, used-release_from, freed_from-entry, frees_below}

pub kernel_end_page_lem :
    (kernel_end : ℕ) → kernel_end_page kernel_end ≡ u32 (kernel_end + frame_size - 1) / 4096 * 4096
unfolding kernel_end_page
kernel_end_page_lem kernel_end = page_mask (u32 (kernel_end + frame_size - 1)) (omega arith)

module _ (kernel_start kernel_end mbd : ℕ) (p : Pmm) where
  -- The kernel's region or the bitmap's.
  abbrev pub reserved : ℕ → Bool
  reserved j =
      let ptr = kernel_end_page kernel_end in
      let size = u32 (bitmap_pages p.nb_frames * frame_size) in
      in_range (kernel_start / frame_size)
        (region_frames (u32 (kernel_end + 2 ^ 32 - kernel_start))) j
      || in_range (ptr / frame_size) (region_frames size) j

  -- The frames that an available entry of the map frees, with the kernel's and the bitmap's addresses.
  abbrev pub freed : Memory → ℕ → Bool
  freed m j =
      let ptr = kernel_end_page kernel_end in
      let size = u32 (bitmap_pages p.nb_frames * frame_size) in
      freed_from kernel_start (u32 (ptr + size)) m mbd 0 (mmap_rounds m mbd) j

  -- `mark_frames` takes the frames of the kernel's region and of the bitmap's, as far as they have
  -- a bit, frees the others that `freed` says, and leaves the rest as it found it; where the map
  -- does not overlap the bitmap.
  pub used-mark_frames :
      (m : Memory) (j : ℕ)
      → IsBytes m
      → MapApart p m mbd (mmap_rounds m mbd)
      → kernel_start < 2 ^ 32
      → used (mark_frames kernel_start kernel_end mbd p m) p j
        ≡ (if reserved j && holds p.bm j then true else if freed m j then false else used m p j)
  unfolding mark_frames
  used-mark_frames m j bytes apart low =
      let ptr = kernel_end_page kernel_end in
      let size = u32 (bitmap_pages p.nb_frames * frame_size) in
      let kernel_size = u32 (kernel_end + 2 ^ 32 - kernel_start) in
      let released = release_from kernel_start (u32 (ptr + size)) p mbd 0 (mmap_rounds m mbd) m in
      ground (
        arith,
        used-set_used p (set_used p released kernel_start kernel_size) ptr size j
            (omega (arith, kernel_end_page_lem kernel_end)),
        used-set_used p released kernel_start kernel_size j low,
        used-release_from kernel_start (u32 (ptr + size)) p (omega arith) m mbd bytes 0
            (mmap_rounds m mbd) j m (λ a out. refl) apart.header
            (λ k h. apart.entries k (omega arith)),
      )

  -- A kernel in the upper quarter of the address space, as it is linked, reserves no frame of the
  -- lower three: each that an available region frees is free after `init`, those that hold the
  -- kernel and the bitmap included; where the map does not overlap the bitmap.
  pub unreserved_below :
      (m : Memory) (j : ℕ)
      → IsBytes m
      → MapApart p m mbd (mmap_rounds m mbd)
      → 0xC0000000 ≤ kernel_start
      → kernel_start ≤ kernel_end
      → kernel_end + frame_size ≤ 2 ^ 32
      → j < 0xC0000
      → freed m j ≡ true
      → used (mark_frames kernel_start kernel_end mbd p m) p j ≡ false
  unreserved_below m j bytes apart high order fits below free =
      let page = kernel_end_page_lem kernel_end in
      let kernel_kept : in_range (kernel_start / frame_size)
            (region_frames (u32 (kernel_end + 2 ^ 32 - kernel_start))) j
          ≡ false =
        ground arith in
      let bitmap_kept : in_range (kernel_end_page kernel_end / frame_size)
            (region_frames (u32 (bitmap_pages p.nb_frames * frame_size))) j
          ≡ false =
        ground (arith, page) in
      used-mark_frames m j bytes apart (omega arith) ∙ rw (kernel_kept, bitmap_kept, free) refl

  -- Behind the marking, for a kernel that lies in the upper quarter, each frame of the lower three
  -- from the start of an available entry's region on is free, however short the region is and
  -- whatever the map says of what lies behind it. Memory holds bytes, the map does not overlap the
  -- bitmap, and the kernel ends a frame below 4 GiB.
  pub freed_past_region :
      (m : Memory) (n j : ℕ)
      → IsBytes m
      → MapApart p m mbd (mmap_rounds m mbd)
      → 0xC0000000 ≤ kernel_start
      → kernel_start ≤ kernel_end
      → kernel_end + frame_size ≤ 2 ^ 32
      → j < 0xC0000
      → n < mmap_rounds m mbd
      → let e = mmap_entry m (entry_address m mbd (n * sizeof_entry)) in
        e.type ≡ memory_available
        → e.addr_low ≤ j * frame_size
        → used (mark_frames kernel_start kernel_end mbd p m) p j ≡ false
  freed_past_region m n j bytes apart high order fits below listed available start =
      let end = u32 (kernel_end_page kernel_end + u32 (bitmap_pages p.nb_frames * frame_size)) in
      let e = mmap_entry m (entry_address m mbd (n * sizeof_entry)) in
      unreserved_below m j bytes apart high order fits below (
        freed_from-entry kernel_start end m mbd (mmap_rounds m mbd) 0 n (n * sizeof_entry) j listed
          (omega arith) available
          (frees_below kernel_start end e j start (omega arith) (omega arith)))
