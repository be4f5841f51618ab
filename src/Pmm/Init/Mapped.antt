-- ===== src/Pmm/Init/Mapped.antt =====
-- That the pages of the bitmap are mapped behind `PMM::init`.
use lkd.Prelude.{ℕ, ◌+◌, ◌*◌, ◌%◌, ◌^◌, ◌≤◌, ◌<◌, some, ◌≡◌, refl, ◌∙◌, ◌⊎◌, arith}
use lkd.Memory.{Memory, load32, p2v}
use lkd.Strings.Blocks.{memset_lem}
use lkd.Bitmap.{bitmap}
use lkd.Paging.{entry_at, pd_index, pt_index, get_current_pd}
use lkd.Paging.Walk.{table_of, walk, index_lt}
use lkd.Pmm.{Pmm}
use lkd.Pmm.Init.{
  mmap_rounds, kernel_end_page, bitmap_size_bytes, bitmap_pages, map_bitmap, create_bitmap,
  mark_frames,
}
use lkd.Pmm.Init.Outside.{SameOutside, load32-same, set_used-outside}
use lkd.Pmm.Init.Marks.{release_from-outside}
use lkd.Pmm.Init.Reserved.{kernel_end_page_lem}
use lkd.Pmm.Init.Tables.{HasTables, HasTables-same, map_bitmap-directory, walk-map_bitmap}

-- A walk reads the same in two memories that only differ in the bitmap, if that overlaps neither
-- the directory nor the table.
walk-same :
    (q : Pmm) (m n : Memory) (d va : ℕ)
    → SameOutside q m n
    → (d + 4096 ≤ q.bm.ptr) ⊎ (q.bm.ptr + q.bm.size ≤ d)
    → let t = table_of (load32 n (entry_at d (pd_index va))) in
      (t + 4096 ≤ q.bm.ptr) ⊎ (q.bm.ptr + q.bm.size ≤ t) → walk m d va ≡ walk n d va
unfolding walk
walk-same q m n d va same apart table_apart =
    let (di, ti) = index_lt va in
    let pde = load32-same q m n (entry_at d (pd_index va)) same (omega arith) in
    let pte =
      load32-same q m n (entry_at (table_of (load32 n (entry_at d (pd_index va)))) (pt_index va))
        same (omega arith) in
    rw (pde, pte) refl

mark_frames-outside :
    (kernel_start kernel_end mbd : ℕ) (q : Pmm) (n : Memory)
    → SameOutside q (mark_frames kernel_start kernel_end mbd q n) n
unfolding mark_frames
mark_frames-outside kernel_start kernel_end mbd q n a out =
    set_used-outside q _ _ _ a out
    ∙ set_used-outside q _ _ _ a out
    ∙ release_from-outside kernel_start _ q (omega arith) mbd 0 (mmap_rounds n mbd) n a out

module _ (kernel_start kernel_end mbd cr3 : ℕ) (p : Pmm) (m : Memory) where
  memset-outside :
      let (q, n) = create_bitmap kernel_start kernel_end mbd cr3 p m in
      let mapped =
        map_bitmap p
          (get_current_pd cr3)
          (kernel_end_page kernel_end)
          (bitmap_pages p.nb_frames)
          m in
      SameOutside q n mapped
  unfolding create_bitmap bitmap
  memset-outside a out =
      let mapped =
        map_bitmap p (get_current_pd cr3) (kernel_end_page kernel_end) (bitmap_pages p.nb_frames)
          m in
      ground (
        arith,
        memset_lem mapped (kernel_end_page kernel_end) 0xFF (bitmap_size_bytes p.nb_frames) a,
      )

  -- Through the current directory, where it has tables for them, the pages of the bitmap lead to
  -- the frames 3 GiB below their addresses.
  pub walk-mark_frames :
      (va : ℕ)
      → let start = kernel_end_page kernel_end in
        let end = start + 4096 * bitmap_pages p.nb_frames in
        let (q, n) = create_bitmap kernel_start kernel_end mbd cr3 p m in
        HasTables m (p2v (get_current_pd cr3)) start (bitmap_pages p.nb_frames)
        → end < 2 ^ 32
        → start ≤ va
        → va < end
        → walk (mark_frames kernel_start kernel_end mbd q n) (p2v (get_current_pd cr3)) va
          ≡ some (va % 2 ^ 30)
  unfolding create_bitmap bitmap
  walk-mark_frames va h fits lo hi =
      let pd = get_current_pd cr3 in
      let start = kernel_end_page kernel_end in
      let count = bitmap_pages p.nb_frames in
      let mapped = map_bitmap p pd start count m in
      let (q, n) = create_bitmap kernel_start kernel_end mbd cr3 p m in
      let at : start % 4096 ≡ 0 = omega (arith, kernel_end_page_lem kernel_end) in
      let tables =
        HasTables-same m mapped (p2v pd) start count
          (map_bitmap-directory p pd start count fits at count start m h (omega arith)
            (omega arith))
          h in
      walk-same q (mark_frames kernel_start kernel_end mbd q n) mapped (p2v pd) va
        (λ a out. mark_frames-outside kernel_start kernel_end mbd q n a out ∙ memset-outside a out)
        (omega (arith, h.apart)) (omega (arith, tables.table_apart va lo hi))
      ∙ walk-map_bitmap p pd start count fits at count start m va h at (omega arith) (omega arith)
          lo hi
