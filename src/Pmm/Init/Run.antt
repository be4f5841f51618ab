-- ===== src/Pmm/Init/Run.antt =====
-- The state that `PMM::init` leaves.
use mathlib.Core.Path.{subst}
use lkd.Prelude.{
  ℕ, ◌/◌, ◌^◌, ◌<◌, Option, some, bit_and, ◌>>>◌, codes, ◌≡◌, ◌≢◌, refl, arith, sym, ◌+◌, ◌*◌, ◌%◌,
  ◌≤◌, not, ◌&&◌, ◌||◌,
}
use lkd.Memory.{Memory, IsBytes, p2v}
use lkd.Serial.Sent.{Answers}
use lkd.Bitmap.Laws.{holds}
use lkd.Paging.{get_current_pd}
use lkd.Paging.Walk.{walk}
use lkd.Pmm.{Pmm}
use lkd.Pmm.Frames.{used}
use lkd.Pmm.Init.Marks.{MapApart}
use lkd.Pmm.Init.Tables.{HasTables}
use lkd.Pmm.Init.Mapped.{walk-mark_frames}
use lkd.Pmm.Init.Bits.{create_bitmap_place, used-mark_frames-create_bitmap}
use lkd.Pmm.Init.Reserved.{reserved, freed, kernel_end_page_lem}
use lkd.Kernel.{Kernel}
use lkd.Kernel.Logs.{CanLog, Logged}
use lkd.Pmm.Init.{flags, mmap_rounds, kernel_end_page, bitmap_pages, create_bitmap, init}
use lkd.Pmm.Init.Ends.{frames_found, booted, no_flag, ended, init-Ended}

module _ (input : ℕ → ℕ → ℕ) (fuel : ℕ) (answers : Answers input fuel)
    (kernel_start kernel_end mbd : ℕ) where
  -- The bitmap's first address, the end of its pages, and its memory before frames are marked.
  abbrev pub bitmap_start : ℕ
  bitmap_start = (kernel_end + 4095) % 2 ^ 32 / 4096 * 4096

  abbrev pub bitmap_end : Kernel → ℕ
  bitmap_end k =
      bitmap_start
      + 4096 * bitmap_pages (frames_found input fuel answers kernel_start kernel_end mbd k.memory)

  abbrev pub filled : Kernel → Pmm × Memory
  filled k =
      create_bitmap kernel_start kernel_end mbd k.scheduler.cr3
        (record (k.pmm) {
          nb_frames = frames_found input fuel answers kernel_start kernel_end mbd k.memory;
        })
        k.memory

  -- What `init` leaves.
  pub data Initialised (k : Kernel) (result : Option (Unit {0} × Kernel)) : Type 0 where
    refused :
        bit_and (flags k.memory mbd >>> 6) 0x1 ≡ 0
        → Logged input fuel
            (codes "[ERROR] INVALID MULTIBOOT FLAG in Physical Memory Manager!\n")
            k
            result
        → Initialised k result
    ready :
        (k' : Kernel)
        → bit_and (flags k.memory mbd >>> 6) 0x1 ≢ 0
        → result ≡ some (tt, k')
        → CanLog input fuel k'
        → k' ≡ record k { pmm = k'.pmm; memory = k'.memory; serial = k'.serial }
        → k'.pmm ≡ record {
          nb_frames = frames_found input fuel answers kernel_start kernel_end mbd k.memory;
          bm = record {
            ptr = bitmap_start;
            size =
                (frames_found input fuel answers kernel_start kernel_end mbd k.memory + 7)
                % 2 ^ 32
                / 8;
          };
        }
        → ((j : ℕ)
            → used k'.memory k'.pmm j ≡ (
                holds k'.pmm.bm j
                && (reserved kernel_start kernel_end mbd k'.pmm j
                    || not (freed kernel_start kernel_end mbd k'.pmm (filled k).1 j))))
        → ((va : ℕ)
            → bitmap_start ≤ va
            → va < bitmap_end k
            → walk k'.memory (p2v (get_current_pd k.scheduler.cr3)) va ≡ some (va % 2 ^ 30))
        → Initialised k result

  -- `init` ends. Without a memory map it logs that and changes nothing else. With one it finds as
  -- many frames as the 64-bit sum of the lengths has, cut to 32 bits, and has a bitmap of them from
  -- the page at the kernel's end on. There a frame is taken if it has a bit and either is one of the
  -- kernel's or the bitmap's region, by their addresses, or is freed by no available entry of the map
  -- as it stands when the bitmap is filled. An entry that starts below the kernel's address frees
  -- from there up to that address, and one that ends above the bitmap's pages from their end up to
  -- its own. Through the current directory each address of the bitmap's pages leads to itself modulo
  -- 1 GiB. But for the frame allocator, the memory and the serial line the kernel's state is as it
  -- was. The conditions: the line answers, with room on the printer's stack; memory holds bytes; the
  -- kernel's addresses have 32 bits; the map does not overlap the bitmap; the bitmap's pages end
  -- below 4 GiB; and the directory, at a page's start, has tables for them that are below 1 GiB, one
  -- for each of its entries, and that like itself do not overlap the pages.
  pub init-Initialised :
      (k : Kernel)
      → CanLog input fuel k
      → IsBytes k.memory
      → kernel_start < 2 ^ 32
      → kernel_end < 2 ^ 32
      → MapApart (filled k).0 (filled k).1 mbd (mmap_rounds (filled k).1 mbd)
      → bitmap_end k < 2 ^ 32
      → HasTables k.memory
          (p2v (get_current_pd k.scheduler.cr3))
          bitmap_start
          (bitmap_pages (frames_found input fuel answers kernel_start kernel_end mbd k.memory))
      → Initialised k (init kernel_start kernel_end mbd input fuel k)
  init-Initialised k room bytes start_lt end_lt apart fits tables =
      elim (init-Ended input fuel answers kernel_start kernel_end mbd k room bytes start_lt
        end_lt) [
          | no_flag none_there logged ↦ refused none_there logged
          | ended p there result room' ↦
              let q : Pmm = record (k.pmm) {
                nb_frames = frames_found input fuel answers kernel_start kernel_end mbd k.memory;
              } in
              let cr3 = k.scheduler.cr3 in
              let place : kernel_end_page kernel_end ≡ bitmap_start =
                omega (arith, kernel_end_page_lem kernel_end) in
              ready
                (record (booted input fuel answers kernel_start kernel_end mbd k) { serial = p })
                there result room' refl
                (create_bitmap_place kernel_start kernel_end mbd cr3 q k.memory end_lt)
                (λ j.
                  used-mark_frames-create_bitmap kernel_start kernel_end mbd cr3 q k.memory j bytes
                    start_lt apart)
                (λ va lo hi.
                  walk-mark_frames kernel_start kernel_end mbd cr3 q k.memory va
                    (subst
                      (λ s. HasTables k.memory (p2v (get_current_pd cr3)) s (
                        bitmap_pages
                          (frames_found input fuel answers kernel_start kernel_end mbd k.memory)))
                      (sym place) tables)
                    (omega (arith, place)) (omega (arith, place)) (omega (arith, place)))
        ]
