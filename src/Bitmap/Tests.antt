-- ===== src/Bitmap/Tests.antt =====
-- The unit tests of test/bitmap_test.cpp on small bitmaps, and the theorems at such inputs.
use lkd.Prelude.{true, false, some, ◌≡◌, refl, arith}
use lkd.Memory.{Memory, store8, IsBytes}
use lkd.Bitmap.{Bitmap, bitmap, get_bit, clear_bit, set_first_free}
use lkd.Bitmap.{first_free_from}
use lkd.Bitmap.Scan.{FirstFree, set_first_free_lem}

-- Address 100 holds 0b00000111, and all other bytes are 0.
abbrev memory : Memory
memory = store8 (λ a. 0) 100 7

-- 32 bits in 4 bytes.
abbrev bm : Bitmap
bm = record { ptr = 100; size = 4 }

bitmap-bm : bitmap 100 32 ≡ bm
unfolding bitmap
bitmap-bm = refl

get_bit-bm :
    (get_bit memory bm 2 ≡ true) × (get_bit memory bm 3 ≡ false) × (get_bit memory bm 32 ≡ false)
unfolding get_bit
get_bit-bm = (refl, refl, refl)

clear_bit-bm : (clear_bit memory bm 1).1 100 ≡ 5
unfolding clear_bit
clear_bit-bm = refl

set_first_free-bm : (set_first_free memory bm).0 ≡ some 3
unfolding set_first_free first_free_from get_bit
set_first_free-bm = refl

memory-IsBytes : IsBytes memory
memory-IsBytes a = ground arith

set_first_free_lem_example : FirstFree memory bm (set_first_free memory bm)
set_first_free_lem_example = set_first_free_lem memory bm
