-- ===== src/Pmm/Init/Bits.antt =====
-- The bits that `PMM::init` leaves: of the bitmap that it makes, filled and marked.
use lkd.Prelude.{ℕ, ◌+◌, ◌*◌, ◌/◌, ◌%◌, ◌^◌, ◌<◌, not, ◌&&◌, ◌||◌, ◌≡◌, refl, arith}
use lkd.Bits.{bit, bit-zero, bit-complement}
use lkd.Memory.{Memory, IsBytes}
use lkd.Strings.{memset}
use lkd.Strings.Blocks.{memset_lem}
use lkd.Bitmap.{bitmap}
use lkd.Bitmap.Laws.{holds, get_bit_lem}
use lkd.Pmm.{Pmm}
use lkd.Pmm.Frames.{used}
use lkd.Paging.{get_current_pd}
use lkd.Pmm.Init.{
  mmap_rounds, kernel_end_page, bitmap_size_bytes, bitmap_pages, map_bitmap, create_bitmap,
  mark_frames,
}
use lkd.Pmm.Init.Bytes.{create_bitmap-IsBytes}
use lkd.Pmm.Init.Marks.{MapApart}
use lkd.Pmm.Init.Reserved.{reserved, freed, kernel_end_page_lem, used-mark_frames}

-- Every bit of 0xFF is set.
bit-full : (k : ℕ) → k < 8 → bit k 0xFF ≡ 1
bit-full k lt = ground (arith, bit-complement k 8 0 lt (omega arith), bit-zero k)

module _ (kernel_start kernel_end mbd cr3 : ℕ) (p : Pmm) (m : Memory) where
  -- The bitmap has `nb_frames + 7` over 8 bytes, from the page at the kernel's end on.
  pub create_bitmap_place :
      kernel_end < 2 ^ 32
      → (create_bitmap kernel_start kernel_end mbd cr3 p m).0 ≡ record {
        nb_frames = p.nb_frames;
        bm = record {
          ptr = (kernel_end + 4095) % 2 ^ 32 / 4096 * 4096;
          size = (p.nb_frames + 7) % 2 ^ 32 / 8;
        };
      }
  unfolding create_bitmap bitmap
  create_bitmap_place lt =
      let place : kernel_end_page kernel_end ≡ (kernel_end + 4095) % 2 ^ 32 / 4096 * 4096 =
        omega (arith, kernel_end_page_lem kernel_end) in
      rw place refl

  used-create_bitmap :
      (j : ℕ)
      → let (q, n) = create_bitmap kernel_start kernel_end mbd cr3 p m in used n q j ≡ holds q.bm j
  unfolding create_bitmap bitmap
  used-create_bitmap j =
      let ptr = kernel_end_page kernel_end in
      let size = bitmap_size_bytes p.nb_frames in
      let mapped = map_bitmap p (get_current_pd cr3) ptr (bitmap_pages p.nb_frames) m in
      ground (
        arith,
        get_bit_lem (memset mapped ptr 0xFF size) (bitmap ptr p.nb_frames) j,
        memset_lem mapped ptr 0xFF size (ptr + j / 8),
        bit-full (j % 8) (omega arith),
      )

  -- With the bitmap filled, `mark_frames` leaves exactly these frames with a bit taken: those that
  -- the kernel's region or the bitmap's comes to, and those that no available entry of the memory map
  -- frees; where memory holds bytes, the kernel starts below 4 GiB, and the map does not overlap the
  -- bitmap.
  pub used-mark_frames-create_bitmap :
      (j : ℕ)
      → IsBytes m
      → kernel_start < 2 ^ 32
      → let (q, n) = create_bitmap kernel_start kernel_end mbd cr3 p m in
        MapApart q n mbd (mmap_rounds n mbd)
        → used (mark_frames kernel_start kernel_end mbd q n) q j ≡ (
            holds q.bm j
            && (reserved kernel_start kernel_end mbd q j
                || not (freed kernel_start kernel_end mbd q n j)))
  used-mark_frames-create_bitmap j bytes low apart =
      let (q, n) = create_bitmap kernel_start kernel_end mbd cr3 p m in
      ground (
        arith,
        used-mark_frames kernel_start kernel_end mbd q n j
            (create_bitmap-IsBytes kernel_start kernel_end mbd cr3 p m bytes) apart low,
        used-create_bitmap j,
      )
