-- ===== src/Vga/Cursor.antt =====
-- `write_char`: where the cursor goes and which cell is written.
use lkd.Prelude.{
  ℕ, ◌+◌, ◌-◌, ◌*◌, ◌^◌, ◌≤◌, ◌<◌, true, ltb, ◌==◌, if◌then◌else◌, ◌≡◌, ◌≢◌, refl, ap, ◌∙◌, sym,
  arith, inl, ◌⊎◌,
}
use mathlib.Core.Path.{subst}
use native.Mathlib.Decide.{ℕ_discrete, dec_lt}
use lkd.Vga.{Vga, cell, insert_char, scroll_screen, write_char_ready, write_char}
use lkd.Vga.Scroll.{IsSized, scrolled, scroll_screen_lem, fields-scroll_screen}

-- The screen between two characters: the cursor stands on it, or at the start of the row below it.
pub record IsReady (v : Vga) : Type 0 where
  pub started : v.init ≡ true
  pub wide : v.width ≡ 80
  pub high : v.height ≡ 25
  pub column : v.x < 80
  pub row : (v.y < 25) ⊎ ((v.y ≡ 25) × (v.x ≡ 0))

-- The place that a character other than a newline takes: the next column, else the next row's first.
abbrev pub next_x : Vga → ℕ
next_x v = if ltb (v.x + 1) 80 then v.x + 1 else 0

abbrev pub next_row : Vga → ℕ
next_row v = if ltb (v.x + 1) 80 then v.y else v.y + 1

-- A newline moves to the start of the next row, and writes nothing: the row may be the one below the
-- screen.
pub write_char_newline :
    (v : Vga) → IsReady v → v.y < 25 → write_char 0x0A v ≡ record v { x = 0; y = v.y + 1 }
unfolding write_char write_char_ready
write_char_newline v r above = ground arith

-- On a ready screen, a character other than a newline that stays on it goes to the next place,
-- and no other cell changes.
pub write_char_on_screen :
    (ch : ℕ) (v : Vga)
    → IsReady v
    → ch ≢ 0x0A
    → next_row v < 25
    → ((write_char ch v).x ≡ next_x v)
      × ((write_char ch v).y ≡ next_row v)
      × ((j : ℕ)
          → (write_char ch v).screen j
            ≡ (if 80 * next_row v + next_x v == j then cell ch v.color else v.screen j))
unfolding write_char write_char_ready insert_char
write_char_on_screen ch v r ne inside = (ground arith, ground arith, λ j. ground arith)

module _ (ch : ℕ) (v : Vga) (on : v.init ≡ true) (sized : IsSized v) (column : v.x < 80)
    (fits : v.y < 2 ^ 24) (ne : ch ≢ 0x0A) (below : 25 ≤ next_row v) where
  abbrev pub moved : Vga
  moved = record v { x = next_x v; y = next_row v }

  pub write_char_after_scroll :
      write_char ch v
      ≡ insert_char ch (scroll_screen moved).x (scroll_screen moved).y (scroll_screen moved)
  unfolding write_char write_char_ready
  write_char_after_scroll = ground arith

  -- Where the cursor of a character other than a newline has left a screen of 80 by 25, the screen
  -- scrolls by one row, once, and the character goes to the start of the row above the cursor's.
  pub write_char_scrolls :
      ((write_char ch v).x ≡ 0)
      × ((write_char ch v).y ≡ next_row v - 1)
      × ((j : ℕ)
          → (write_char ch v).screen j
            ≡ (if 80 * (next_row v - 1) == j then cell ch v.color else scrolled v.screen v.color j))
  unfolding insert_char
  write_char_scrolls =
      let scroll = scroll_screen_lem moved sized (ground arith) (ground arith) in
      let same = fields-scroll_screen moved in
      let width : (scroll_screen moved).width ≡ 80 = ap (λ (s : Vga). s.width) same ∙ sized.0 in
      let color : (scroll_screen moved).color ≡ v.color = ap (λ (s : Vga). s.color) same in
      (
        ap (λ (s : Vga). s.x) write_char_after_scroll ∙ scroll.1,
        ap (λ (s : Vga). s.y) write_char_after_scroll ∙ scroll.2,
        λ j. ground (
          arith,
          ap (λ (s : Vga). s.screen j) write_char_after_scroll,
          scroll.0 j,
          scroll.1,
          scroll.2,
          width,
          ap (cell ch) color,
        ),
      )

insert_char-IsReady : (ch x y : ℕ) {v : Vga} → IsReady v → IsReady (insert_char ch x y v)
unfolding insert_char
insert_char-IsReady ch x y r = ground arith

abbrev to_place : Vga → Vga
to_place v = record v { x = next_x v; y = next_row v }

write_char_in_place :
    (ch : ℕ) (v : Vga)
    → IsReady v
    → ch ≢ 0x0A
    → next_row v < 25
    → write_char ch v ≡ insert_char ch (next_x v) (next_row v) (to_place v)
unfolding write_char write_char_ready
write_char_in_place ch v r ne inside = ground arith

scroll_screen-IsReady : (v : Vga) → v.init ≡ true → IsSized v → v.y ≡ 25 → IsReady (scroll_screen v)
scroll_screen-IsReady v on sized below =
    let moved = scroll_screen_lem v sized (omega arith) (omega arith) in
    let same = fields-scroll_screen v in
    record {
      started = ap (λ (s : Vga). s.init) same ∙ on;
      wide = ap (λ (s : Vga). s.width) same ∙ sized.0;
      high = ap (λ (s : Vga). s.height) same ∙ sized.1;
      column = omega (arith, moved.1);
      row = inl (omega (arith, moved.2));
    }

-- A character keeps the screen ready, and no cell beyond it changes, unless it is a newline that
-- comes while the cursor already stands below the screen.
pub write_char-IsReady :
    (ch : ℕ) (v : Vga)
    → IsReady v
    → (ch ≢ 0x0A) ⊎ (v.y < 25)
    → IsReady (write_char ch v) × ((j : ℕ) → 2000 ≤ j → (write_char ch v).screen j ≡ v.screen j)
write_char-IsReady ch v r h = elim (ℕ_discrete ch 0x0A) [
  | yes newline ↦
      let above : v.y < 25 = ground arith in
      subst
        (λ c.
          IsReady (write_char c v) × ((j : ℕ) → 2000 ≤ j → (write_char c v).screen j ≡ v.screen j))
        (sym newline)
        (subst (λ s. IsReady s × ((j : ℕ) → 2000 ≤ j → s.screen j ≡ v.screen j))
          (sym (write_char_newline v r above)) (ground arith, λ j k. refl))
  | no ne ↦ elim (dec_lt (next_row v) 25) [
    | yes inside ↦ (
      subst IsReady (sym (write_char_in_place ch v r ne inside))
          (insert_char-IsReady ch (next_x v) (next_row v) (ground arith)),
      λ j k. (let placed = (write_char_on_screen ch v r ne inside).2 j in ground (arith, placed)),
    )
    | no below ↦ (
      subst IsReady
          (sym (
            write_char_after_scroll ch v r.started (r.wide, r.high) r.column (ground arith) ne
              (omega arith)))
          (insert_char-IsReady ch _ _
            (scroll_screen-IsReady (to_place v) r.started (r.wide, r.high) (ground arith))),
      λ j k.
          (let placed =
              (write_char_scrolls ch v r.started (r.wide, r.high) r.column (ground arith) ne
                  (omega arith)).2
                j in
            ground (arith, placed)),
    )
  ]
]

below_newline : (v : Vga) → IsReady v → write_char 0x0A v ≡ record v { x = 0; y = v.y + 1 }
unfolding write_char write_char_ready
below_newline v r = ground arith

-- Two newlines in the last row leave the cursor two rows below it. The next character scrolls once
-- only, and is written behind the screen's last cell.
pub newlines_leave_screen :
    (ch : ℕ) (v : Vga)
    → IsReady v
    → v.y ≡ 24
    → ch ≢ 0x0A
    → (write_char ch (write_char 0x0A (write_char 0x0A v))).screen 2000 ≡ cell ch v.color
newlines_leave_screen ch v r last ne =
    let one : Vga = record v { x = 0; y = v.y + 1 } in
    let two : Vga = record v { x = 0; y = v.y + 1 + 1 } in
    let down : write_char 0x0A (write_char 0x0A v) ≡ two =
      ap (write_char 0x0A) (below_newline v r) ∙ below_newline one (ground arith) in
    let placed =
      (write_char_scrolls ch two r.started (r.wide, r.high) (omega arith) (omega arith) ne
          (omega arith)).2
        2000 in
    ap (λ s. (write_char ch s).screen 2000) down ∙ ground (arith, placed)
