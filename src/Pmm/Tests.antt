-- ===== src/Pmm/Tests.antt =====
-- A machine of 32 frames whose bitmap stands at address 100: frames 0 to 2 are taken.
use lkd.Prelude.{List, [], ◌∷◌, inl, true, false, ◌≡◌, ◌≢◌, refl, arith}
use lkd.Memory.{Memory, store8, load32, p2v}
use lkd.Kernel.Sample.{ready, ready-Answers, line_room}
use lkd.Pmm.Abstract.{
  Op, allocate, release, reserve, offer, run, performed, specified, Stands, run-refines,
}
use lkd.Prelude.{◌*◌}
use lkd.Pmm.Init.{sizeof_entry, entry_address}
use lkd.Pmm.Init.{init, mmap_entry, map_len, mmap_rounds, mmap_addr, kernel_end_page, mark_frames}
use lkd.Pmm.Init.Sample.{
  boot_memory, boot-IsBytes, boot_kernel, pages_1, boot-HasTables, filled-MapApart,
}
use lkd.Pmm.Init.Run.{Initialised, init-Initialised}
use lkd.Pmm.Init.Marks.{MapApart}
use lkd.Pmm.Init.Reserved.{freed, unreserved_below, freed_past_region}
use lkd.Bitmap.{get_bit, set_bit}
use lkd.Pmm.{Pmm, null, allocate_from, allocate_frame, free_frame}
use lkd.Pmm.Frames.{used, IsValid, Allocated, allocate_frame-Allocated, free_frame-allocate_frame}

abbrev memory : Memory
memory = store8 (λ a. 0) 100 7

abbrev pmm : Pmm
pmm = record { nb_frames = 32; bm = record { ptr = 100; size = 4 } }

pmm-IsValid : IsValid pmm
pmm-IsValid = omega arith

allocate_frame_first : (allocate_frame pmm memory).0 ≡ 0x3000
unfolding allocate_frame allocate_from get_bit
allocate_frame_first = refl

allocate_frame_second : (allocate_frame pmm (allocate_frame pmm memory).1).0 ≡ 0x4000
unfolding allocate_frame allocate_from get_bit set_bit
allocate_frame_second = refl

allocate_frame-Allocated_example : Allocated pmm memory 1 (allocate_frame pmm memory)
allocate_frame-Allocated_example = allocate_frame-Allocated pmm pmm-IsValid memory (omega arith)

gives_a_frame : (allocate_frame pmm memory).0 ≢ null
gives_a_frame = rw allocate_frame_first (omega arith)

free_frame-allocate_frame_example :
    used (free_frame pmm (allocate_frame pmm memory).1 (p2v (allocate_frame pmm memory).0)) pmm 3
    ≡ used memory pmm 3
free_frame-allocate_frame_example =
    free_frame-allocate_frame pmm pmm-IsValid memory (omega arith) (omega arith) gives_a_frame 3

-- A sequence of calls on the set of the frames that the bits say.
abbrev calls : List Op
calls = allocate ∷ release 0xC0001000 ∷ allocate ∷ reserve 0x5000 0x2001 ∷ offer 0x3000 0x1000 ∷ []

calls_addresses :
    (run (specified 32 32) calls (λ j. used memory pmm j)).0 ≡ 0x3000 ∷ 0 ∷ 0x1000 ∷ 0 ∷ 0 ∷ []
unfolding get_bit
calls_addresses = refl

run-refines_example :
    ((run (performed pmm) calls memory).0
      ≡ (run (specified 32 32) calls (λ j. used memory pmm j)).0)
    × Stands pmm pmm-IsValid
        (run (performed pmm) calls memory).1
        (run (specified 32 32) calls (λ j. used memory pmm j)).1
run-refines_example =
    run-refines pmm pmm-IsValid calls memory (λ j. used memory pmm j) (omega arith) (omega arith)
      (λ j. refl)

abbrev booted_pmm : Pmm
booted_pmm = record { nb_frames = 512; bm = record { ptr = 0xC0110000; size = 64 } }

one_entry : mmap_rounds boot_memory 0x200 ≡ 1
unfolding load32
one_entry = refl

map_address : p2v (mmap_addr boot_memory 0x200) ≡ 0xC0000300
unfolding load32 p2v
map_address = refl

boot-MapApart : MapApart booted_pmm boot_memory 0x200 (mmap_rounds boot_memory 0x200)
boot-MapApart = record {
  header = inl (omega arith);
  entries = λ i lt. inl (omega (arith, map_address, one_entry));
}

init-Initialised_example :
    Initialised ready 2 ready-Answers 0xC0100000 0xC0110000 0x200 boot_kernel
      (init 0xC0100000 0xC0110000 0x200 ready 2 boot_kernel)
init-Initialised_example =
    init-Initialised ready 2 ready-Answers 0xC0100000 0xC0110000 0x200 boot_kernel line_room
      boot-IsBytes (omega arith) (omega arith) filled-MapApart (rw pages_1 (omega arith))
      (rw pages_1 boot-HasTables)

-- A frame that the kernel lies in, from 0x100000 up to 0x110000.
kernel_frame_freed : freed 0xC0100000 0xC0110000 0x200 booted_pmm boot_memory 0x105 ≡ true
unfolding load32 p2v mmap_entry map_len kernel_end_page
kernel_frame_freed = refl

unreserved_below_example :
    used (mark_frames 0xC0100000 0xC0110000 0x200 booted_pmm boot_memory) booted_pmm 0x105 ≡ false
unreserved_below_example =
    unreserved_below 0xC0100000 0xC0110000 0x200 booted_pmm boot_memory 0x105 boot-IsBytes
      boot-MapApart (omega arith) (omega arith) (omega arith) (omega arith) kernel_frame_freed

-- A machine of 16 MiB, of which the map has 2 MiB available.
abbrev wide_pmm : Pmm
wide_pmm = record { nb_frames = 4096; bm = record { ptr = 0xC0110000; size = 512 } }

wide-MapApart : MapApart wide_pmm boot_memory 0x200 (mmap_rounds boot_memory 0x200)
wide-MapApart = record {
  header = inl (omega arith);
  entries = λ i lt. inl (omega (arith, map_address, one_entry));
}

one_available :
    (mmap_entry boot_memory (entry_address boot_memory 0x200 (0 * sizeof_entry))).type ≡ 1
unfolding load32 p2v mmap_entry
one_available = refl

starts_at_0 :
    (mmap_entry boot_memory (entry_address boot_memory 0x200 (0 * sizeof_entry))).addr_low ≡ 0
unfolding load32 p2v mmap_entry
starts_at_0 = refl

freed_past_region_example :
    used (mark_frames 0xC0100000 0xC0110000 0x200 wide_pmm boot_memory) wide_pmm 0x300 ≡ false
freed_past_region_example =
    freed_past_region 0xC0100000 0xC0110000 0x200 wide_pmm boot_memory 0 0x300 boot-IsBytes
      wide-MapApart (omega arith) (omega arith) (omega arith) (omega arith)
      (omega (arith, one_entry)) one_available (omega (arith, starts_at_0))
