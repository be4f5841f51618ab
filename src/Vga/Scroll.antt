-- ===== src/Vga/Scroll.antt =====
-- `scroll_screen` and `clear_screen`.
use mathlib.Core.Path.{ap₂}
use lkd.Prelude.{
  ℕ, zero, suc, ◌+◌, ◌-◌, ◌*◌, ◌^◌, ◌≤◌, ◌<◌, ltb, if◌then◌else◌, u32, ◌≡◌, refl, ap, ◌∙◌, arith,
}
use lkd.Vga.{Cells, Vga, cell, blank_row, clear_rows, clear_screen, copy_rows, scroll_screen}
use lkd.Vga.Screen.{within, screen-blank_row, fields-blank_row, copy_rows_lem}

-- The dimensions that `init_vga` sets.
abbrev pub IsSized : Vga → Type 0
IsSized v = (v.width ≡ 80) × (v.height ≡ 25)

-- A screen one row further down.
abbrev pub scrolled : Cells → ℕ → Cells
scrolled s color j = if ltb j 1920 then s (j + 80) else if ltb j 2000 then cell b' ' color else s j

-- On a screen of 80 by 25, with the cursor below row 0, `scroll_screen` moves rows 1 to 24 up by
-- one, blanks row 24 in the current colour, touches no cell beyond the screen, and puts the
-- cursor to the start of the row above its own.
pub scroll_screen_lem :
    (v : Vga)
    → IsSized v
    → 1 ≤ v.y
    → v.y < 2 ^ 32
    → ((j : ℕ) → (scroll_screen v).screen j ≡ scrolled v.screen v.color j)
      × ((scroll_screen v).x ≡ 0)
      × ((scroll_screen v).y ≡ v.y - 1)
unfolding scroll_screen
scroll_screen_lem v (w, h) pos fits = (
  λ j.
      (let copied : Vga = record v { screen = copy_rows v.width 1 (v.height - 1) v.screen } in
        let rows : copy_rows v.width 1 (v.height - 1) v.screen j ≡ copy_rows 80 1 24 v.screen j =
          ap₂ (λ a b. copy_rows a 1 b v.screen j) w (omega arith) in
        let blanked : (blank_row (v.height - 1) 0 v.width copied).screen j
            ≡ (blank_row 24 0 80 copied).screen j =
          ap₂ (λ a b. (blank_row a 0 b copied).screen j) (omega arith) w in
        ground (
          arith,
          blanked,
          screen-blank_row 24 0 80 j copied w,
          rows,
          copy_rows_lem 1 24 j v.screen,
        )),
  refl,
  omega arith,
)

screen-clear_rows :
    (y n j : ℕ) (v : Vga)
    → v.width ≡ 80
    → 80 * (y + n) < 2 ^ 32
    → (clear_rows y n v).screen j
      ≡ (if within (80 * y) (80 * (y + n)) j then cell b' ' v.color else v.screen j)
unfolding clear_rows
screen-clear_rows y zero j v w h = ground arith
screen-clear_rows y (suc n) j v w h =
    let row : Vga = blank_row y 0 v.width v in
    let same : row ≡ record v { screen = row.screen } = fields-blank_row y 0 v.width v in
    let width : row.width ≡ 80 = ap (λ (r : Vga). r.width) same ∙ w in
    let color : row.color ≡ v.color = ap (λ (r : Vga). r.color) same in
    let blanked : row.screen j ≡ (blank_row y 0 80 v).screen j =
      ap (λ b. (blank_row y 0 b v).screen j) w in
    ground (
      arith,
      screen-clear_rows (y + 1) n j row width,
      blanked,
      screen-blank_row y 0 80 j v w,
      ap (cell b' ') color,
    )

-- `clear_screen` blanks the 2000 cells of the screen in the current colour, and no other.
pub clear_screen_lem :
    (v : Vga)
    → IsSized v
    → (j : ℕ) → (clear_screen v).screen j ≡ (if ltb j 2000 then cell b' ' v.color else v.screen j)
unfolding clear_screen
clear_screen_lem v (w, h) j =
    let rows : (clear_rows 0 v.height v).screen j ≡ (clear_rows 0 25 v).screen j =
      ap (λ n. (clear_rows 0 n v).screen j) h in
    ground (arith, rows, screen-clear_rows 0 25 j v w)

-- `scroll_screen` changes the cursor and the cells alone.
pub fields-scroll_screen :
    (v : Vga)
    → scroll_screen v ≡ record v {
      x = (scroll_screen v).x;
      y = (scroll_screen v).y;
      screen = (scroll_screen v).screen;
    }
unfolding scroll_screen
fields-scroll_screen v =
    ap (λ (b : Vga). record b { x = 0; y = u32 (v.y + 2 ^ 32 - 1) })
      (fields-blank_row (v.height - 1) 0 v.width
        (record v { screen = copy_rows v.width 1 (v.height - 1) v.screen }))
