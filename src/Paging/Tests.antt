-- ===== src/Paging/Tests.antt =====
-- Page entries and mappings at concrete addresses.
use lkd.Bitmap.{get_bit, set_bit}
use lkd.Pmm.{allocate_from, allocate_frame}
use lkd.Paging.{copy}
use lkd.Paging.Walk.{table_of}
use lkd.Paging.Copy.{walk-copy}
use lkd.Prelude.{◌+◌, ◌*◌, ◌/◌, ◌%◌, ◌^◌, ◌<◌, some, ◌==◌, if◌then◌else◌, ◌≡◌, refl, arith, inl}
use lkd.Memory.{Memory, load32, p2v}
use lkd.Pmm.{Pmm}
use lkd.Paging.{entry_at, pd_index, map_page}
use lkd.Paging.Walk.{walk}
use lkd.Paging.Mapping.{HasTable, IsTable, walk-map_page, walk-map_page_ne}

-- A directory at 0x1000 whose first entry leads to a table at 0x2000.
abbrev memory : Memory
memory a = if a == 0xC0001000 then 0x07 else if a == 0xC0001001 then 0x20 else 0

abbrev pmm : Pmm
pmm = record { nb_frames = 8; bm = record { ptr = 0xC0100000; size = 1 } }

entry : load32 memory (entry_at (p2v 0x1000) (pd_index 0x3000)) ≡ 0x2007
unfolding load32 p2v
entry = refl

is_table : IsTable (p2v 0x1000) 0x2007
unfolding p2v
is_table = (omega arith, λ same. absurd (omega (arith, same)))

odd_entry : load32 memory (entry_at (p2v 0x1000) (pd_index 0x3000)) % 2 ≡ 1
odd_entry = rw (entry) refl

entry-IsTable : IsTable (p2v 0x1000) (load32 memory (entry_at (p2v 0x1000) (pd_index 0x3000)))
entry-IsTable = rw (entry) is_table

low_entry : load32 memory (entry_at (p2v 0x1000) (pd_index 0x4ABC)) < 2 ^ 30
unfolding load32 p2v
low_entry = omega arith

has_table : HasTable pmm memory (p2v 0x1000) 0x3000
has_table = inl (odd_entry, entry-IsTable)

aligned : p2v 0x1000 % 4096 ≡ 0
unfolding p2v
aligned = refl

walk-map_page_example :
    walk (map_page pmm memory 0x1000 0x5000 0x3000 3) (p2v 0x1000) 0x3ABC
    ≡ some (0x5000 / 4096 * 4096 + 0x3ABC % 4096)
walk-map_page_example =
    walk-map_page pmm memory 0x1000 0x5000 0x3000 3 aligned (omega arith) 0x3ABC refl refl has_table

walk-map_page_ne_example :
    walk (map_page pmm memory 0x1000 0x5000 0x3000 3) (p2v 0x1000) 0x4ABC
    ≡ walk memory (p2v 0x1000) 0x4ABC
walk-map_page_ne_example =
    walk-map_page_ne pmm memory 0x1000 0x5000 0x3000 3 aligned (omega arith) 0x4ABC (omega arith)
      odd_entry entry-IsTable low_entry (inl refl)

-- The same directory, with frames 0 to 3 taken.
abbrev busy : Memory
busy a = if a == 0xC0100000 then 0x0F else memory a

new_directory : (copy pmm busy 0xC0001000).0 ≡ 0xC0004000
unfolding copy allocate_frame allocate_from get_bit p2v
new_directory = refl

shared_table :
    table_of (load32 (allocate_frame pmm busy).1 (entry_at 0xC0001000 (pd_index 0x3ABC)))
    ≡ 0xC0002000
unfolding allocate_frame allocate_from get_bit set_bit load32 p2v
shared_table = refl

walk-copy_example :
    walk (copy pmm busy 0xC0001000).1 (copy pmm busy 0xC0001000).0 0x3ABC
    ≡ walk (allocate_frame pmm busy).1 0xC0001000 0x3ABC
walk-copy_example =
    walk-copy pmm busy 0xC0001000 0x3ABC (omega (arith, new_directory))
      (omega (arith, new_directory, shared_table))
