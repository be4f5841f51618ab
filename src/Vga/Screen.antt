-- ===== src/Vga/Screen.antt =====
-- The loops over the screen, cell by cell.
use lkd.Prelude.{
  ℕ, zero, suc, ◌+◌, ◌-◌, ◌*◌, ◌^◌, ◌≤◌, ◌<◌, Bool, leb, ltb, ◌&&◌, if◌then◌else◌, u32, ◌≡◌, refl,
  ap, arith,
}
use lkd.Vga.{Cells, set_cell, Vga, cell, insert_char, blank_row, copy_row, copy_rows}

-- The cell number lies from `lo` up to `hi`.
abbrev pub within : ℕ → ℕ → ℕ → Bool
within lo hi j = leb lo j && ltb j hi

-- Eighty columns from here on; a cell number fits 32 bits.
pub screen-blank_row :
    (y x n j : ℕ) (v : Vga)
    → v.width ≡ 80
    → 80 * y + x + n < 2 ^ 32
    → (blank_row y x n v).screen j
      ≡ (if within (80 * y + x) (80 * y + x + n) j then cell b' ' v.color else v.screen j)
unfolding blank_row insert_char
screen-blank_row y x zero j v w h = ground arith
screen-blank_row y x (suc n) j v w h =
    ground (arith, screen-blank_row y (x + 1) n j (insert_char b' ' x y v))

pub fields-blank_row :
    (y x n : ℕ) (v : Vga) → blank_row y x n v ≡ record v { screen = (blank_row y x n v).screen }
unfolding blank_row insert_char
fields-blank_row y x zero v = refl
fields-blank_row y x (suc n) v = fields-blank_row y (x + 1) n (insert_char b' ' x y v)

pub copy_row_lem :
    (y x n j : ℕ) (s : Cells)
    → 1 ≤ y
    → x + n ≤ 80
    → y < 2 ^ 24
    → copy_row 80 y x n s j
      ≡ (if within (80 * (y - 1) + x) (80 * (y - 1) + x + n) j then s (j + 80) else s j)
unfolding copy_row
copy_row_lem y x zero j s pos h small = ground arith
copy_row_lem y x (suc n) j s pos h small =
    let from : u32 (80 * y + x) ≡ 80 * (y - 1) + x + 80 = omega arith in
    let to : u32 (80 * (y - 1) + x) ≡ 80 * (y - 1) + x = omega arith in
    ground (
      arith,
      ap s from,
      copy_row_lem y (x + 1) n j (set_cell s (u32 (80 * (y - 1) + x)) (s (u32 (80 * y + x)))),
    )

pub copy_rows_lem :
    (y n j : ℕ) (s : Cells)
    → 1 ≤ y
    → y + n < 2 ^ 24
    → copy_rows 80 y n s j
      ≡ (if within (80 * (y - 1)) (80 * (y - 1 + n)) j then s (j + 80) else s j)
unfolding copy_rows
copy_rows_lem y zero j s pos small = ground arith
copy_rows_lem y (suc n) j s pos small = ground (
  arith,
  copy_rows_lem (y + 1) n j (copy_row 80 y 0 80 s),
  copy_row_lem y 0 80 j s,
  copy_row_lem y 0 80 (j + 80) s,
)
