-- ===== src/Vga/Tests.antt =====
-- A fresh screen, and the theorems at a cursor in its last row.
use lkd.Prelude.{ℕ, ◌≤◌, true, false, ◌≡◌, refl, arith, inl, inr}
use lkd.Vga.{Vga, cell, init_vga, write_char, write_char_ready, insert_char}
use lkd.Vga.Cursor.{IsReady, write_char-IsReady}

-- Cell `j` holds `j`, and the cursor stands at column 5 of the last row.
abbrev last_row : Vga
last_row = record {
  init = true;
  width = 80;
  height = 25;
  x = 5;
  y = 24;
  color = 7;
  screen = λ j. j;
}

abbrev unused : Vga
unused = record last_row { init = false }

last_row-IsReady : IsReady last_row
last_row-IsReady = record {
  started = refl;
  wide = refl;
  high = refl;
  column = omega arith;
  row = inl (omega arith);
}

-- The first character of all goes to column 1.
first_char : (write_char b'A' unused).x ≡ 1
unfolding write_char write_char_ready init_vga insert_char
first_char = refl

cell-light_grey : cell b'A' 7 ≡ 0x741
unfolding cell
cell-light_grey = refl

abbrev below : Vga
below = record last_row { x = 0; y = 25 }

write_char-IsReady_example :
    IsReady (write_char 0x0A last_row)
    × ((j : ℕ) → 2000 ≤ j → (write_char 0x0A last_row).screen j ≡ j)
write_char-IsReady_example = write_char-IsReady 0x0A last_row last_row-IsReady (inr (omega arith))
