-- ===== src/Pmm/Init/Bytes.antt =====
-- Memory that holds bytes still does when the pages of the bitmap are mapped and it is filled.
use lkd.Prelude.{ℕ, zero, suc, ◌+◌, arith, Bool-cases, inl, inr, bit_and, ◌==◌, u32}
use lkd.Memory.{Memory, IsBytes, load32, v2p, p2v}
use lkd.Memory.Laws.{store32-IsBytes}
use lkd.Strings.{memset}
use lkd.Strings.Blocks.{memset_lem}
use lkd.Bitmap.{get_bit}
use lkd.Bitmap.Laws.{set_bit-IsBytes}
use lkd.Pmm.{Pmm, allocate_from, allocate_frame}
use lkd.Paging.{entry_at, pd_index, ensure_table, map_page}
use lkd.Pmm.Init.{map_bitmap, create_bitmap}

memset-IsBytes : {m : Memory} (dst val n : ℕ) → IsBytes m → IsBytes (memset m dst val n)
memset-IsBytes {m} dst val n bytes a = ground (arith, memset_lem m dst val n a, bytes a)

allocate_from-IsBytes :
    (p : Pmm) (m : Memory) (i rounds : ℕ) → IsBytes m → IsBytes (allocate_from p m i rounds).1
unfolding allocate_from
allocate_from-IsBytes p m i zero bytes = bytes
allocate_from-IsBytes p m i (suc rounds) bytes = elim (Bool-cases (get_bit m p.bm i)) [
  | inl taken ↦ rw taken (allocate_from-IsBytes p m (i + 1) rounds bytes)
  | inr free ↦ rw free (set_bit-IsBytes m p.bm i bytes)
]

allocate_frame-IsBytes : (p : Pmm) (m : Memory) → IsBytes m → IsBytes (allocate_frame p m).1
unfolding allocate_frame
allocate_frame-IsBytes p m bytes = allocate_from-IsBytes p m 1 _ bytes

ensure_table-IsBytes :
    (p : Pmm) (m : Memory) (this index : ℕ) → IsBytes m → IsBytes (ensure_table p m this index)
unfolding ensure_table
ensure_table-IsBytes p m this index bytes =
    elim (Bool-cases (bit_and (load32 m (entry_at this index)) 0x1 == 0)) [
      | inl absent ↦ rw absent (
          store32-IsBytes _ _
            (memset-IsBytes (p2v (allocate_frame p m).0) 0 4096 (allocate_frame-IsBytes p m bytes)))
      | inr present ↦ rw present bytes
    ]

map_page-IsBytes :
    (p : Pmm) (m : Memory) (this phys virt flags : ℕ)
    → IsBytes m
    → IsBytes (map_page p m this phys virt flags)
unfolding map_page
map_page-IsBytes p m this phys virt flags bytes =
    store32-IsBytes _ _ (ensure_table-IsBytes p m (p2v this) (pd_index virt) bytes)

map_bitmap-IsBytes :
    (p : Pmm) (pd to_map rounds : ℕ) (m : Memory)
    → IsBytes m
    → IsBytes (map_bitmap p pd to_map rounds m)
unfolding map_bitmap
map_bitmap-IsBytes p pd to_map zero m bytes = bytes
map_bitmap-IsBytes p pd to_map (suc rounds) m bytes =
    map_bitmap-IsBytes p pd (u32 (to_map + 0x1000)) rounds _
      (map_page-IsBytes p m pd (v2p to_map) to_map 0x3 bytes)

pub create_bitmap-IsBytes :
    (kernel_start kernel_end mbd cr3 : ℕ) (p : Pmm) (m : Memory)
    → IsBytes m
    → IsBytes (create_bitmap kernel_start kernel_end mbd cr3 p m).1
unfolding create_bitmap
create_bitmap-IsBytes kernel_start kernel_end mbd cr3 p m bytes =
    memset-IsBytes _ 0xFF _ (map_bitmap-IsBytes p _ _ _ m bytes)
