-- ===== src/Pmm/Init/Sample.antt =====
-- A machine that `PMM::init` is run on, and what its hypotheses ask of it there.
use lkd.Prelude.{ℕ, ◌≤◌, ◌<◌, ap, ◌∙◌, inl, ◌==◌, if◌then◌else◌, ◌≡◌, refl, arith}
use lkd.Memory.{Memory, load32, p2v, IsBytes}
use lkd.Kernel.{Kernel}
use lkd.Paging.{entry_at, pd_index, get_current_pd}
use lkd.Paging.Walk.{pd_index_lem}
use lkd.Pmm.Init.Ends.{frames_found}
use lkd.Pmm.Init.Tables.{HasTables}
use lkd.Kernel.Sample.{ready, ready-Answers, kernel}
use lkd.Memory.{store32}
use lkd.Strings.{memset, memset_from}
use lkd.Bitmap.{bitmap}
use lkd.Paging.{map_page, ensure_table}
use lkd.Pmm.Init.{create_bitmap, map_bitmap}
use lkd.Pmm.Init.{mmap_entry, map_len, bitmap_pages, mmap_rounds, mmap_addr, kernel_end_page}
use lkd.Pmm.Init.Run.{filled}
use lkd.Pmm.Init.Marks.{MapApart}
use lkd.Pmm.{Pmm}

-- The boot loader's information at 0x200, with a map at 0x300 of one entry: 512 free frames.
abbrev pub boot_memory : Memory
boot_memory a =
    if a == 0x200
    then 0x40
    else if a == 0x22C
    then 24
    else if a == 0x231
    then 3
    else if a == 0xC000030E
    then 0x20
    else if a == 0xC0000314
    then 1
    else if a == 0xC0001C00
    then 3
    else if a == 0xC0001C01
    then 0x20
    else 0

pub boot-IsBytes : IsBytes boot_memory
boot-IsBytes a = ground arith

-- No frame is known yet.
abbrev no_pmm : Pmm
no_pmm = record { nb_frames = 0; bm = record { ptr = 0; size = 0 } }

-- The kernel's directory stands at 0xC0001000, with one table, at 0xC0002000.
abbrev pub boot_kernel : Kernel
boot_kernel = kernel boot_memory no_pmm 0x1000

abbrev pub boot_filled : Pmm × Memory
boot_filled = filled ready 2 ready-Answers 0xC0100000 0xC0110000 0x200 boot_kernel

frames_512 : frames_found ready 2 ready-Answers 0xC0100000 0xC0110000 0x200 boot_memory ≡ 512
unfolding load32 p2v mmap_entry map_len
frames_512 = refl

kernel_entry :
    (a : ℕ)
    → 0xC0110000 ≤ a
    → a < 0xC0111000
    → load32 boot_memory (entry_at (p2v (get_current_pd 0x1000)) (pd_index a)) ≡ 0x2003
unfolding load32 p2v get_current_pd
kernel_entry a lo hi =
    let index : pd_index a ≡ 768 = omega (arith, pd_index_lem a) in
    ap (λ i. load32 boot_memory (entry_at 0xC0001000 i)) index ∙ refl

pub pages_1 :
    bitmap_pages (frames_found ready 2 ready-Answers 0xC0100000 0xC0110000 0x200 boot_memory) ≡ 1
pages_1 = rw frames_512 refl

pub boot-HasTables : HasTables boot_memory (p2v (get_current_pd 0x1000)) 0xC0110000 1
unfolding p2v get_current_pd
boot-HasTables = record {
  aligned = omega arith;
  apart = inl (omega arith);
  present = λ a lo hi. omega (arith, kernel_entry a lo hi);
  table = λ a lo hi. rw (kernel_entry a lo hi) (omega arith, λ e. absurd (omega (arith, e)));
  table_apart = λ a lo hi. rw (kernel_entry a lo hi) (inl (omega arith));
  differ = λ a b alo ahi blo bhi. inl (omega (arith, pd_index_lem a, pd_index_lem b));
}

filled_map :
    (mmap_rounds boot_filled.1 0x200 ≡ 1)
    × (p2v (mmap_addr boot_filled.1 0x200) ≡ 0xC0000300)
    × (boot_filled.0.bm.ptr ≡ 0xC0110000)
unfolding load32 p2v create_bitmap memset memset_from map_len mmap_entry kernel_end_page map_bitmap
    map_page store32 ensure_table get_current_pd bitmap
filled_map = (refl, refl, refl)

pub filled-MapApart : MapApart boot_filled.0 boot_filled.1 0x200 (mmap_rounds boot_filled.1 0x200)
filled-MapApart =
    let (rounds, address, ptr) = filled_map in
    record {
      header = inl (omega (arith, ptr));
      entries = λ i lt. inl (omega (arith, address, rounds, ptr));
    }
