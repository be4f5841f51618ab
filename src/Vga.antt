-- ===== src/Vga.antt =====
-- `vga::VGA` of src/outputs/vga.cpp: the text screen. The static members are the fields; `screen` is
-- the memory behind `_screen`, by cell, and a cell is the character with the colour above it.
pub mod Screen
pub mod Scroll
pub mod Cursor
mod Tests
use lkd.Prelude.{
  ℕ, zero, suc, ◌+◌, ◌-◌, ◌*◌, ◌%◌, ◌^◌, List, Option, some, Bool, true, false, leb, ◌==◌, ◌||◌,
  if◌then◌else◌, bit_or, u8, u16, u32, ◌<<<◌,
}
use lkd.Printing
use lkd.Printing.{Printer, M, Arg}
use lkd.Printing.Format

abbrev pub Cells : Type 0
Cells = ℕ → ℕ

abbrev pub set_cell : Cells → ℕ → ℕ → Cells
set_cell s i v j = if i == j then v else s j

-- `enum vga_color`, by value.
abbrev pub color_black : ℕ
color_black = 0

abbrev pub color_light_grey : ℕ
color_light_grey = 7

pub record Vga : Type 0 where
  pub init : Bool
  pub width : ℕ
  pub height : ℕ
  pub x : ℕ
  pub y : ℕ
  pub color : ℕ
  pub screen : Cells

unfoldable pub set_color : ℕ → ℕ → Vga → Vga
set_color fg bg v = record v { color = u8 (bit_or fg (bg <<< 4)) }

-- The screen's address is fixed, and its cells stay as they are.
unfoldable pub init_vga : Vga → Vga
unfolding set_color
init_vga v = record (set_color color_light_grey color_black v) {
  init = true;
  width = 80;
  height = 25;
  x = 0;
  y = 0;
}

-- `(uint16_t) ch | (uint16_t) VGA::_color << 8`
unfoldable pub cell : ℕ → ℕ → ℕ
cell ch color = u16 (bit_or (u8 ch) (color <<< 8))

unfoldable pub insert_char : ℕ → ℕ → ℕ → Vga → Vga
insert_char ch x y v = record v {
  screen = set_cell v.screen (u32 (v.width * y + x)) (cell ch v.color);
}

-- A loop over `x` that inserts a space, at `x` with `rounds` columns left.
unfoldable pub blank_row : ℕ → ℕ → ℕ → Vga → Vga
blank_row y x zero v = v
blank_row y x (suc rounds) v = blank_row y (x + 1) rounds (insert_char b' ' x y v)

-- The loop of `clear_screen` over `y`.
unfoldable pub clear_rows : ℕ → ℕ → Vga → Vga
clear_rows y zero v = v
clear_rows y (suc rounds) v = clear_rows (y + 1) rounds (blank_row y 0 v.width v)

unfoldable pub clear_screen : Vga → Vga
clear_screen v = clear_rows 0 v.height v

-- The inner loop of `scroll_screen`: row `y` goes up by one, at column `x`.
unfoldable pub copy_row : ℕ → ℕ → ℕ → ℕ → Cells → Cells
copy_row width y x zero s = s
copy_row width y x (suc rounds) s =
    copy_row width y (x + 1) rounds
      (set_cell s (u32 (width * (y - 1) + x)) (s (u32 (width * y + x))))

-- The outer loop, at row `y`.
unfoldable pub copy_rows : ℕ → ℕ → ℕ → Cells → Cells
copy_rows width y zero s = s
copy_rows width y (suc rounds) s = copy_rows width (y + 1) rounds (copy_row width y 0 width s)

unfoldable pub scroll_screen : Vga → Vga
scroll_screen v =
    let copied = record v { screen = copy_rows v.width 1 (v.height - 1) v.screen } in
    let blanked = blank_row (v.height - 1) 0 v.width copied in
    record blanked { x = 0; y = u32 (v.y + 2 ^ 32 - 1) }

-- Behind `if (!_init)`: the cursor moves first, and a character is put where it then stands.
unfoldable pub write_char_ready : ℕ → Vga → Vga
write_char_ready ch v =
    let x = u32 (v.x + 1) in
    let moved =
      if leb v.width x || ch == 0x0A
      then record v { x = 0; y = u32 (v.y + 1) }
      else record v { x = x } in
    if ch == 0x0A
    then moved
    else (let scrolled = if leb moved.height moved.y then scroll_screen moved else moved in
        insert_char ch scrolled.x scrolled.y scrolled)

unfoldable pub write_char : ℕ → Vga → Vga
write_char ch v = write_char_ready ch (if v.init then v else init_vga v)

-- The screen always takes a character.
abbrev pub write_char? : ℕ → Vga → Option Vga
write_char? ch v = some (write_char ch v)

abbrev pub write_str : List ℕ → M Vga ℕ
write_str = Printing.write_str write_char?

abbrev pub write : List ℕ → ℕ → M Vga ℕ
write = Printing.write write_char?

abbrev pub print_hex : ℕ → ℕ → M Vga (Unit {0})
print_hex = Printing.print_hex write_char?

abbrev pub print_dec : ℕ → M Vga (Unit {0})
print_dec = Printing.print_dec write_char?

-- `%s` is no directive here.
abbrev pub kprintf : List ℕ → List Arg → M Vga (Unit {0})
kprintf = Format.kprintf write_char? false
