-- ===== src/Loader/Tests.antt =====
-- A file at address 0 that begins with the magic.
use lkd.Prelude.{ℕ, ◌+◌, ◌%◌, ◌<◌, ◌++◌, some, inl, ◌==◌, if◌then◌else◌, refl, ap}
use lkd.Memory.{load32, store32, p2v}
use lkd.Printing.{Printer}
use lkd.Serial.{Serial}
use lkd.Serial.Sent.{sent}
use lkd.Bitmap.{get_bit, set_bit}
use lkd.Pmm.{Pmm, allocate_from, allocate_frame}
use lkd.Paging.{entry_at, pd_index, ensure_table, map_page, page_entry, get_current_pd}
use lkd.Paging.Walk.{table_of}
use lkd.Paging.Access.{translate}
use lkd.Paging.Mapping.{IsTable}
use lkd.Kernel.{Kernel}
use lkd.Kernel.Sample.{ready, ready-Answers, kernel, line_room}
use lkd.Loader.Load.{Phdr, elf32, load, load_segment}
use lkd.Loader.Segment.{
  phys_addr, mapped, base, file_bytes, directory_entry, CanMap, IsSmall, load_segment_lem,
}
use lkd.Loader.Refused.{load-refused}
use lkd.Prelude.{true, codes, get_or, ◌∷◌, ◌≡◌, ◌↔◌, arith, inr}
use lkd.Memory.{Memory}
use lkd.Loader.{verify_header}
use lkd.Loader.Header.{IsElf, verify_header_iff}

abbrev file : Memory
file a = get_or (0x7F ∷ codes "ELF") a 0

verify_header_iff_example : (verify_header file 0 100 ≡ true) ↔ IsElf file 0
verify_header_iff_example = verify_header_iff file 0 100 (inr (omega arith))

-- A directory at 0x1000 whose first entry leads to a table at 0x2000, and frames 0 to 3 taken.
abbrev memory : Memory
memory a =
    if a == 0xC0001000
    then 0x07
    else if a == 0xC0001001
    then 0x20
    else if a == 0xC0100000
    then 0x0F
    else 0

abbrev pmm : Pmm
pmm = record { nb_frames = 8; bm = record { ptr = 0xC0100000; size = 1 } }

abbrev before : Kernel
before = kernel memory pmm 0x1000

abbrev segment : Phdr
segment = record {
  p_type = 1;
  p_offset = 0x1000;
  p_vaddr = 0x3ABC;
  p_paddr = 0x3ABC;
  p_filesz = 16;
}

load-refused_example :
    (p : Printer Serial) × (load ready 2 0xC0300000 (elf32 0xC0200000) 0x1000 before
      ≡ some (elf32 0xC0200000, record before { serial = p }))
    × (p.device.ports.written
        ≡ before.serial.device.ports.written
          ++ sent before.serial.device.init (codes "[ELF] Invalid ELF magic!\n"))
unfolding elf32
load-refused_example =
    load-refused ready 2 0xC0300000 0x1000 (elf32 0xC0200000) before ready-Answers line_room
      (inr (omega arith)) (λ magic. absurd (omega (arith, magic.0)))

frame_found : phys_addr before 0x1000 0xC0200000 segment ≡ 0x4000
unfolding allocate_frame allocate_from get_bit
frame_found = refl

entry_found : directory_entry before 0x1000 0xC0200000 segment ≡ 0x2007
unfolding allocate_frame allocate_from get_bit set_bit map_page ensure_table load32 p2v page_entry
    store32
entry_found = refl

old_entry : load32 (allocate_frame pmm memory).1 (entry_at (p2v 0x1000) (pd_index 0x3ABC)) ≡ 0x2007
unfolding allocate_frame allocate_from get_bit set_bit load32 p2v
old_entry = refl

directory_at : p2v 0x1000 ≡ 0xC0001000
unfolding p2v
directory_at = refl

table_at : table_of 0x2007 ≡ 0xC0002000
unfolding p2v
table_at = refl

current_directory : get_current_pd 0x1000 ≡ p2v 0x1000
unfolding get_current_pd
current_directory = refl

odd_entry : load32 (allocate_frame pmm memory).1 (entry_at (p2v 0x1000) (pd_index 0x3ABC)) % 2 ≡ 1
odd_entry = omega (arith, old_entry)

directory_entry-IsTable : IsTable (p2v 0x1000) 0x2007
directory_entry-IsTable =
    (omega arith, λ same. absurd (omega (arith, same, table_at, directory_at)))

segment-CanMap : CanMap before 0x1000 0xC0200000 segment
segment-CanMap = record {
  current = current_directory;
  aligned = omega (arith, directory_at);
  has_table = inl (odd_entry, rw old_entry directory_entry-IsTable);
  low_table = omega (arith, entry_found);
  not_directory = λ same. absurd (omega (arith, same, frame_found, directory_at));
  not_table = λ same. absurd (omega (arith, same, frame_found, ap table_of entry_found, table_at));
}

segment-IsSmall : IsSmall before 0x1000 0xC0200000 segment
segment-IsSmall = record {
  in_page = omega arith;
  below = omega arith;
  apart = inl (omega (arith, frame_found));
}

load_segment_lem_example :
    (m' : Memory) × (load_segment 0x1000 0xC0200000 segment before
      ≡ some (tt, record before { memory = m' }))
    × ((i : ℕ)
        → i < 16
        → (translate m' (p2v 0x1000) (0x3ABC + i)
            ≡ some (base before 0x1000 0xC0200000 segment + i))
          × (m' (base before 0x1000 0xC0200000 segment + i)
              ≡ mapped before 0x1000 0xC0200000 segment
                  (file_bytes before 0x1000 0xC0200000 segment + i)))
load_segment_lem_example =
    load_segment_lem before 0x1000 0xC0200000 segment (omega arith) (omega arith) (omega arith)
      (omega (arith, frame_found)) segment-CanMap segment-IsSmall
