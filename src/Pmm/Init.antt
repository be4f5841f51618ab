-- ===== src/Pmm/Init.antt =====
-- `PMM::init` of src/pmm/pmm.cpp. The addresses of `kernel_start` and `kernel_end` come from the
-- linker; `mbd` is the address of the boot loader's information, whose layout is that of
-- src/includes/multiboot.h. The loops over the memory map take its length once, for a length up to
-- 2^32 - 24.
mod Outside
pub mod Marks
pub mod Reserved
pub mod Total
pub mod Bytes
pub mod Bits
pub mod Tables
pub mod Mapped
pub mod Ends
pub mod Run
pub mod Sample
use lkd.Prelude.{
  ℕ, zero, suc, ◌+◌, ◌-◌, ◌*◌, ◌/◌, ◌%◌, ◌^◌, [], ◌∷◌, ltb, ◌==◌, if◌then◌else◌, bit_and, bit_or,
  u32, complement, ◌<<<◌, ◌>>>◌, codes,
}
use lkd.Memory.{Memory, load32, v2p, p2v}
use lkd.Strings.{memset}
use lkd.Printing.{word, long}
use lkd.Bitmap.{bitmap}
use lkd.Pmm.{Pmm, frame_size, set_used, set_unused}
use lkd.Paging.{map_page, get_current_pd}
use lkd.Kernel.{K, pure, gets, modify, ◌>>=◌, log, log_str}

-- The fields of `multiboot_info_t` that are read.
abbrev pub flags : Memory → ℕ → ℕ
flags m mbd = load32 m mbd

abbrev pub mmap_length : Memory → ℕ → ℕ
mmap_length m mbd = load32 m (mbd + 44)

abbrev pub mmap_addr : Memory → ℕ → ℕ
mmap_addr m mbd = load32 m (mbd + 48)

-- `multiboot_memory_map_t`
pub record MmapEntry : Type 0 where
  pub addr_low : ℕ
  pub len_low : ℕ
  pub len_high : ℕ
  pub type : ℕ

abbrev pub sizeof_entry : ℕ
sizeof_entry = 24

abbrev pub memory_available : ℕ
memory_available = 1

unfoldable pub mmap_entry : Memory → ℕ → MmapEntry
mmap_entry m a = record {
  addr_low = load32 m (a + 4);
  len_low = load32 m (a + 12);
  len_high = load32 m (a + 16);
  type = load32 m (a + 20);
}

-- `((uint64_t) mmmt->len_high << 32) | mmmt->len_low`
unfoldable pub map_len : MmapEntry → ℕ
map_len e = bit_or (e.len_high <<< 32) e.len_low

abbrev pub mmap_rounds : Memory → ℕ → ℕ
mmap_rounds m mbd = (mmap_length m mbd + sizeof_entry - 1) / sizeof_entry

-- `P2V(mbd->mmap_addr) + i`
abbrev pub entry_address : Memory → ℕ → ℕ → ℕ
entry_address m mbd i = u32 (p2v (mmap_addr m mbd) + i)

-- The end of the kernel, rounded up to a page: the bitmap's address.
unfoldable pub kernel_end_page : ℕ → ℕ
kernel_end_page kernel_end =
    bit_and (u32 (kernel_end + frame_size - 1)) (complement (frame_size - 1))

abbrev pub bitmap_size_bytes : ℕ → ℕ
bitmap_size_bytes nb_frames = u32 (nb_frames + 7) / 8

abbrev pub bitmap_pages : ℕ → ℕ
bitmap_pages nb_frames = u32 (bitmap_size_bytes nb_frames + frame_size - 1) / frame_size

-- The loop that maps the bitmap's pages, with `rounds` of them left.
unfoldable pub map_bitmap : Pmm → ℕ → ℕ → ℕ → Memory → Memory
map_bitmap p pd to_map zero m = m
map_bitmap p pd to_map (suc rounds) m =
    map_bitmap p pd (u32 (to_map + 0x1000)) rounds (map_page p m pd (v2p to_map) to_map 0x3)

module _ (kernel_start bitmap_end_addr : ℕ) (p : Pmm) where
  -- An available region below the kernel and above the bitmap.
  unfoldable pub release_region : MmapEntry → Memory → Memory
  release_region e m =
      let start = e.addr_low in
      let end = u32 (e.addr_low + map_len e) in
      let below =
        if ltb start kernel_start then set_unused p m start (kernel_start - start) else m in
      if ltb bitmap_end_addr end
      then set_unused p below bitmap_end_addr (end - bitmap_end_addr)
      else below

  -- The second loop over the map, at `i`, with `rounds` entries left.
  unfoldable pub release_from : ℕ → ℕ → ℕ → Memory → Memory
  release_from mbd i zero m = m
  release_from mbd i (suc rounds) m =
      let e = mmap_entry m (entry_address m mbd i) in
      let m' = if e.type == memory_available then release_region e m else m in
      release_from mbd (i + sizeof_entry) rounds m'

module _ (kernel_start kernel_end mbd : ℕ) where
  -- The maps and the bits of a machine of `p.nb_frames` frames.
  unfoldable pub create_bitmap : ℕ → Pmm → Memory → Pmm × Memory
  create_bitmap cr3 p m =
      let ptr = kernel_end_page kernel_end in
      let mapped = map_bitmap p (get_current_pd cr3) ptr (bitmap_pages p.nb_frames) m in
      (
        record p { bm = bitmap ptr p.nb_frames },
        memset mapped ptr 0xFF (bitmap_size_bytes p.nb_frames),
      )

  unfoldable pub mark_frames : Pmm → Memory → Memory
  mark_frames p m =
      let ptr = kernel_end_page kernel_end in
      let size = u32 (bitmap_pages p.nb_frames * frame_size) in
      let released = release_from kernel_start (u32 (ptr + size)) p mbd 0 (mmap_rounds m mbd) m in
      set_used p (set_used p released kernel_start (u32 (kernel_end + 2 ^ 32 - kernel_start))) ptr
        size

  module _ (input : ℕ → ℕ → ℕ) (fuel : ℕ) where
    unfoldable pub log_entry : MmapEntry → K (Unit {0})
    log_entry e =
        if e.type == memory_available
        then log input fuel (codes "[PMM] Start Addr: %x | Length: %X | Type: Free Memory\n")
            (word e.addr_low ∷ long (map_len e) ∷ [])
        else log input fuel (codes "[PMM] Start Addr: %x | Length: %X | Type: Unusable Memory\n")
            (word e.addr_low ∷ long (map_len e) ∷ [])

    -- The first loop over the map, at `i`, with `rounds` entries left: the sum of the lengths.
    unfoldable pub total_from : ℕ → ℕ → ℕ → K ℕ
    total_from i zero total = pure total
    total_from i (suc rounds) total = do
      e ← gets (λ k. mmap_entry k.memory (entry_address k.memory mbd i))
      _ ← log_entry e
      total_from (i + sizeof_entry) rounds ((total + map_len e) % 2 ^ 64)

    -- Behind the test of the flag.
    unfoldable pub init_with_map : K (Unit {0})
    init_with_map = do
      _ ←
          log input fuel (codes "[PMM] Kernel start: %x | Kernel_end %x\n")
            (word kernel_start ∷ word kernel_end ∷ [])
      rounds ← gets (λ k. mmap_rounds k.memory mbd)
      total_mem ← total_from 0 rounds 0
      let nb_frames = u32 (total_mem / frame_size)
      let bytes = bitmap_size_bytes nb_frames
      _ ← modify (λ k. record k { pmm = record (k.pmm) { nb_frames = nb_frames } })
      _ ← log input fuel (codes "[PMM] Found %d physical frames.\n") (word nb_frames ∷ [])
      _ ← modify (λ k.
          let (p, m) = create_bitmap k.scheduler.cr3 k.pmm k.memory in
          record k { pmm = p; memory = m })
      _ ←
          log input fuel (codes "[PMM] Bitmap initialized at %x, size: %d bytes (%d pages)\n")
            (word (kernel_end_page kernel_end) ∷ word bytes ∷ word (bitmap_pages nb_frames) ∷ [])
      modify (λ k. record k { memory = mark_frames k.pmm k.memory })

    unfoldable pub init : K (Unit {0})
    init k =
        if bit_and (flags k.memory mbd >>> 6) 0x1 == 0
        then log_str input fuel
            (codes "[ERROR] INVALID MULTIBOOT FLAG in Physical Memory Manager!\n") k
        else init_with_map k
