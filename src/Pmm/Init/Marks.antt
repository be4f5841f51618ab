-- ===== src/Pmm/Init/Marks.antt =====
-- Which frames the loop of `PMM::init` over the memory map frees.
use lkd.Prelude.{
  ℕ, zero, suc, ◌+◌, ◌-◌, ◌*◌, ◌/◌, ◌^◌, ◌≤◌, ◌<◌, Bool, true, false, ltb, ◌==◌, if◌then◌else◌,
  ◌&&◌, ◌||◌, u32, ◌≡◌, refl, ap, ◌∙◌, ◌⊎◌, arith, Bool-cases, inl, inr,
}
use lkd.Memory.{p2v, Memory, IsBytes}
use lkd.Memory.Laws.{load32-lt}
use lkd.Pmm.{Pmm, frame_size, region_frames, set_unused}
use lkd.Pmm.Frames.{used}
use lkd.Pmm.Regions.{in_range, used-set_unused}
use lkd.Pmm.Init.Outside.{SameOutside, load32-same, mmap_entry-same, set_unused-outside}
use lkd.Pmm.Init.{
  MmapEntry, mmap_entry, map_len, entry_address, sizeof_entry, memory_available, release_region,
  release_from,
}

-- An entry that starts below the kernel's address frees every frame from its start up to that
-- address, however long its region is; one that ends above the bitmap's end frees every frame from
-- there up to its own end, wherever it starts.
abbrev pub frees : ℕ → ℕ → MmapEntry → ℕ → Bool
frees kernel_start bitmap_end_addr e j =
    let start = e.addr_low in
    let end = u32 (e.addr_low + map_len e) in
    (ltb start kernel_start
      && in_range (start / frame_size) (region_frames (kernel_start - start)) j)
    || (ltb bitmap_end_addr end
        && in_range (bitmap_end_addr / frame_size) (region_frames (end - bitmap_end_addr)) j)

-- Some available entry of the map from `i` on frees the frame.
abbrev pub freed_from : ℕ → ℕ → Memory → ℕ → ℕ → ℕ → ℕ → Bool
freed_from kernel_start bitmap_end_addr m mbd i zero j = false
freed_from kernel_start bitmap_end_addr m mbd i (suc rounds) j =
    let e = mmap_entry m (entry_address m mbd i) in
    let rest = freed_from kernel_start bitmap_end_addr m mbd (i + sizeof_entry) rounds j in
    (e.type == memory_available && frees kernel_start bitmap_end_addr e j) || rest

pub freed_from-entry :
    (kernel_start bitmap_end_addr : ℕ) (m : Memory) (mbd rounds i n at j : ℕ)
    → n < rounds
    → i + n * sizeof_entry ≡ at
    → let e = mmap_entry m (entry_address m mbd at) in
      e.type ≡ memory_available
      → frees kernel_start bitmap_end_addr e j ≡ true
      → freed_from kernel_start bitmap_end_addr m mbd i rounds j ≡ true
freed_from-entry kernel_start bitmap_end_addr m mbd zero i n at j lt here available free =
    absurd (omega arith)
freed_from-entry kernel_start bitmap_end_addr m mbd (suc rounds) i zero at j lt here available
      free =
    let same : i ≡ at = omega arith in rw same (ground (arith, available, free))
freed_from-entry kernel_start bitmap_end_addr m mbd (suc rounds) i (suc n) at j lt here available
      free =
    ground (
      arith,
      freed_from-entry kernel_start bitmap_end_addr m mbd rounds (i + sizeof_entry) n at j
          (omega arith) (omega arith) available free,
    )

pub frees_below :
    (kernel_start bitmap_end_addr : ℕ) (e : MmapEntry) (j : ℕ)
    → e.addr_low ≤ j * frame_size
    → (j + 1) * frame_size ≤ kernel_start
    → kernel_start + frame_size ≤ 2 ^ 32
    → frees kernel_start bitmap_end_addr e j ≡ true
frees_below kernel_start bitmap_end_addr e j start below fits = ground arith

-- The bitmap does not overlap the memory map, of `rounds` entries, or the field that leads to it.
pub record MapApart (p : Pmm) (m : Memory) (mbd rounds : ℕ) : Type 0 where
  pub header : (mbd + 52 ≤ p.bm.ptr) ⊎ (p.bm.ptr + p.bm.size ≤ mbd + 48)
  pub entries :
      (i : ℕ)
      → i < rounds * sizeof_entry
      → (entry_address m mbd i + sizeof_entry ≤ p.bm.ptr)
        ⊎ (p.bm.ptr + p.bm.size ≤ entry_address m mbd i)

addr_low-lt : (m : Memory) (a : ℕ) → IsBytes m → (mmap_entry m a).addr_low < 2 ^ 32
unfolding mmap_entry
addr_low-lt m a bytes = load32-lt m (a + 4) bytes

-- One part of a region, if it is to be freed.
abbrev part : Pmm → Bool → Memory → ℕ → ℕ → Memory
part p c m addr size = if c then set_unused p m addr size else m

part-outside :
    (p : Pmm) (c : Bool) (m : Memory) (addr size : ℕ) → SameOutside p (part p c m addr size) m
part-outside p true m addr size a out = set_unused-outside p m addr size a out
part-outside p false m addr size a out = refl

used-part :
    (p : Pmm) (c : Bool) (m : Memory) (addr size j : ℕ)
    → addr < 2 ^ 32
    → used (part p c m addr size) p j
      ≡ (if c && in_range (addr / frame_size) (region_frames size) j then false else used m p j)
used-part p true m addr size j fits = used-set_unused p m addr size j fits
used-part p false m addr size j fits = refl

if-or :
    (a b c : Bool) → (if b then false else if a then false else c) ≡ (if a || b then false else c)
if-or true true c = refl
if-or true false c = refl
if-or false b c = refl

module _ (kernel_start bitmap_end_addr : ℕ) (p : Pmm) (fits : bitmap_end_addr < 2 ^ 32) where
  release_region-outside :
      (e : MmapEntry) (m : Memory)
      → SameOutside p (release_region kernel_start bitmap_end_addr p e m) m
  unfolding release_region
  release_region-outside e m a out =
      let end = u32 (e.addr_low + map_len e) in
      let below = part p (ltb e.addr_low kernel_start) m e.addr_low (kernel_start - e.addr_low) in
      part-outside p (ltb bitmap_end_addr end) below bitmap_end_addr (end - bitmap_end_addr) a out
      ∙ part-outside p (ltb e.addr_low kernel_start) m e.addr_low (kernel_start - e.addr_low) a out

  used-release_region :
      (e : MmapEntry) (m : Memory) (j : ℕ)
      → e.addr_low < 2 ^ 32
      → used (release_region kernel_start bitmap_end_addr p e m) p j
        ≡ (if frees kernel_start bitmap_end_addr e j then false else used m p j)
  unfolding release_region
  used-release_region e m j low =
      let end = u32 (e.addr_low + map_len e) in
      let size = kernel_start - e.addr_low in
      let c = ltb e.addr_low kernel_start in
      let d = ltb bitmap_end_addr end in
      let below = part p c m e.addr_low size in
      used-part p d below bitmap_end_addr (end - bitmap_end_addr) j fits
      ∙ ap
          (λ u.
            if d
              && in_range (bitmap_end_addr / frame_size) (region_frames (end - bitmap_end_addr)) j
            then false
            else u)
          (used-part p c m e.addr_low size j low)
      ∙ if-or (c && in_range (e.addr_low / frame_size) (region_frames size) j)
          (d && in_range (bitmap_end_addr / frame_size) (region_frames (end - bitmap_end_addr)) j)
          (used m p j)

  abbrev released : MmapEntry → Memory → Memory
  released e m =
      if e.type == memory_available then release_region kernel_start bitmap_end_addr p e m else m

  released-outside : (e : MmapEntry) (m : Memory) → SameOutside p (released e m) m
  released-outside e m a out = elim (Bool-cases (e.type == memory_available)) [
    | inl y ↦ rw y (release_region-outside e m a out)
    | inr n ↦ rw n refl
  ]

  pub release_from-outside :
      (mbd i rounds : ℕ) (m : Memory)
      → SameOutside p (release_from kernel_start bitmap_end_addr p mbd i rounds m) m
  unfolding release_from
  release_from-outside mbd i zero m a out = refl
  release_from-outside mbd i (suc rounds) m a out =
      let e = mmap_entry m (entry_address m mbd i) in
      release_from-outside mbd (i + sizeof_entry) rounds (released e m) a out
      ∙ released-outside e m a out

  used-released :
      (e : MmapEntry) (m : Memory) (j : ℕ)
      → e.addr_low < 2 ^ 32
      → used (released e m) p j ≡ (
          if e.type == memory_available && frees kernel_start bitmap_end_addr e j
          then false
          else used m p j)
  used-released e m j low = elim (Bool-cases (e.type == memory_available)) [
    | inl y ↦ rw y (used-release_region e m j low)
    | inr n ↦ rw n refl
  ]

  module _ (m0 : Memory) (mbd : ℕ) (bytes : IsBytes m0) where
    -- The frames that the loop frees, by the map as it was before.
    pub used-release_from :
        (i rounds j : ℕ) (m : Memory)
        → SameOutside p m m0
        → ((mbd + 52 ≤ p.bm.ptr) ⊎ (p.bm.ptr + p.bm.size ≤ mbd + 48))
        → ((k : ℕ)
            → k < i + rounds * sizeof_entry
            → (entry_address m0 mbd k + sizeof_entry ≤ p.bm.ptr)
              ⊎ (p.bm.ptr + p.bm.size ≤ entry_address m0 mbd k))
        → used (release_from kernel_start bitmap_end_addr p mbd i rounds m) p j ≡ (
            if freed_from kernel_start bitmap_end_addr m0 mbd i rounds j then false else used m p j)
    unfolding release_from
    used-release_from i zero j m same header entries = refl
    used-release_from i (suc rounds) j m same header entries =
        let at : entry_address m mbd i ≡ entry_address m0 mbd i =
          ap (λ a. u32 (p2v a + i)) (load32-same p m m0 (mbd + 48) same (omega arith)) in
        let e = mmap_entry m0 (entry_address m0 mbd i) in
        let read : mmap_entry m (entry_address m mbd i) ≡ e =
          ap (mmap_entry m) at
          ∙ mmap_entry-same p m m0 (entry_address m0 mbd i) same (entries i (omega arith)) in
        ap
          (λ e.
            used
              (release_from kernel_start bitmap_end_addr p mbd (i + sizeof_entry) rounds
                (released e m))
              p j)
          read
        ∙ used-release_from (i + sizeof_entry) rounds j (released e m)
            (λ a out. released-outside e m a out ∙ same a out) header
            (λ k h. entries k (omega arith))
        ∙ ap
            (λ u.
              if freed_from kernel_start bitmap_end_addr m0 mbd (i + sizeof_entry) rounds j
              then false
              else u)
            (used-released e m j (addr_low-lt m0 (entry_address m0 mbd i) bytes))
        ∙ if-or (e.type == memory_available && frees kernel_start bitmap_end_addr e j)
            (freed_from kernel_start bitmap_end_addr m0 mbd (i + sizeof_entry) rounds j)
            (used m p j)
