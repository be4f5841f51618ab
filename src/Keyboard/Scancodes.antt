-- ===== src/Keyboard/Scancodes.antt =====
-- The tables of src/devices/keyboard.cpp: a row for each scancode, and a column for each state of the
-- modifier keys (none, shift, control, alt). The C array has 128 rows; those without an initialiser
-- are 0.
use lkd.Prelude.{ℕ, List, [], ◌∷◌, ◌==◌, if◌then◌else◌, get_or}

abbrev pub rows : List (List ℕ)
rows =
    (0xFF ∷ 0xFF ∷ 0xFF ∷ 0xFF ∷ [])
    ∷ (0x1B ∷ 0x1B ∷ 0x1B ∷ 0x1B ∷ [])
    ∷ (b'1' ∷ b'!' ∷ b'1' ∷ b'1' ∷ [])
    ∷ (b'2' ∷ b'@' ∷ b'2' ∷ b'2' ∷ [])
    ∷ (b'3' ∷ b'#' ∷ b'3' ∷ b'3' ∷ [])
    ∷ (b'4' ∷ b'$' ∷ b'4' ∷ b'4' ∷ [])
    ∷ (b'5' ∷ b'%' ∷ b'5' ∷ b'5' ∷ [])
    ∷ (b'6' ∷ b'^' ∷ b'6' ∷ b'6' ∷ [])
    ∷ (b'7' ∷ b'&' ∷ b'7' ∷ b'7' ∷ [])
    ∷ (b'8' ∷ b'*' ∷ b'8' ∷ b'8' ∷ [])
    ∷ (b'9' ∷ b'(' ∷ b'9' ∷ b'9' ∷ [])
    ∷ (b'0' ∷ b')' ∷ b'0' ∷ b'0' ∷ [])
    ∷ (b'-' ∷ b'_' ∷ b'-' ∷ b'-' ∷ [])
    ∷ (b'=' ∷ b'+' ∷ b'=' ∷ b'=' ∷ [])
    ∷ (0x08 ∷ 0x08 ∷ 0x7F ∷ 0x08 ∷ [])
    ∷ (0x09 ∷ 0x09 ∷ 0x09 ∷ 0x09 ∷ [])
    ∷ (b'q' ∷ b'Q' ∷ b'q' ∷ b'q' ∷ [])
    ∷ (b'w' ∷ b'W' ∷ b'w' ∷ b'w' ∷ [])
    ∷ (b'e' ∷ b'E' ∷ b'e' ∷ b'e' ∷ [])
    ∷ (b'r' ∷ b'R' ∷ b'r' ∷ b'r' ∷ [])
    ∷ (b't' ∷ b'T' ∷ b't' ∷ b't' ∷ [])
    ∷ (b'y' ∷ b'Y' ∷ b'y' ∷ b'y' ∷ [])
    ∷ (b'u' ∷ b'U' ∷ b'u' ∷ b'u' ∷ [])
    ∷ (b'i' ∷ b'I' ∷ b'i' ∷ b'i' ∷ [])
    ∷ (b'o' ∷ b'O' ∷ b'o' ∷ b'o' ∷ [])
    ∷ (b'p' ∷ b'P' ∷ b'p' ∷ b'p' ∷ [])
    ∷ (b'[' ∷ b'{' ∷ b'[' ∷ b'[' ∷ [])
    ∷ (b']' ∷ b'}' ∷ b']' ∷ b']' ∷ [])
    ∷ (0x0A ∷ 0x0A ∷ 0x0A ∷ 0x0A ∷ [])
    ∷ (0xFF ∷ 0xFF ∷ 0xFF ∷ 0xFF ∷ [])
    ∷ (b'a' ∷ b'A' ∷ b'a' ∷ b'a' ∷ [])
    ∷ (b's' ∷ b'S' ∷ b's' ∷ b's' ∷ [])
    ∷ (b'd' ∷ b'D' ∷ b'd' ∷ b'd' ∷ [])
    ∷ (b'f' ∷ b'F' ∷ b'f' ∷ b'f' ∷ [])
    ∷ (b'g' ∷ b'G' ∷ b'g' ∷ b'g' ∷ [])
    ∷ (b'h' ∷ b'H' ∷ b'h' ∷ b'h' ∷ [])
    ∷ (b'j' ∷ b'J' ∷ b'j' ∷ b'j' ∷ [])
    ∷ (b'k' ∷ b'K' ∷ b'k' ∷ b'k' ∷ [])
    ∷ (b'l' ∷ b'L' ∷ b'l' ∷ b'l' ∷ [])
    ∷ (b';' ∷ b':' ∷ b';' ∷ b';' ∷ [])
    ∷ (0x27 ∷ 0x22 ∷ 0x27 ∷ 0x27 ∷ [])
    ∷ (b'`' ∷ b'~' ∷ b'`' ∷ b'`' ∷ [])
    ∷ (0xFF ∷ 0xFF ∷ 0xFF ∷ 0xFF ∷ [])
    ∷ (0x5C ∷ b'|' ∷ 0x5C ∷ 0x5C ∷ [])
    ∷ (b'z' ∷ b'Z' ∷ b'z' ∷ b'z' ∷ [])
    ∷ (b'x' ∷ b'X' ∷ b'x' ∷ b'x' ∷ [])
    ∷ (b'c' ∷ b'C' ∷ b'c' ∷ b'c' ∷ [])
    ∷ (b'v' ∷ b'V' ∷ b'v' ∷ b'v' ∷ [])
    ∷ (b'b' ∷ b'B' ∷ b'b' ∷ b'b' ∷ [])
    ∷ (b'n' ∷ b'N' ∷ b'n' ∷ b'n' ∷ [])
    ∷ (b'm' ∷ b'M' ∷ b'm' ∷ b'm' ∷ [])
    ∷ (b',' ∷ b'<' ∷ b',' ∷ b',' ∷ [])
    ∷ (b'.' ∷ b'>' ∷ b'.' ∷ b'.' ∷ [])
    ∷ (b'/' ∷ b'?' ∷ b'/' ∷ b'/' ∷ [])
    ∷ (0xFF ∷ 0xFF ∷ 0xFF ∷ 0xFF ∷ [])
    ∷ (b'*' ∷ b'*' ∷ b'*' ∷ b'*' ∷ [])
    ∷ (0xFF ∷ 0xFF ∷ 0xFF ∷ 0xFF ∷ [])
    ∷ (0x20 ∷ 0x20 ∷ 0x20 ∷ 0x20 ∷ [])
    ∷ (0xFF ∷ 0xFF ∷ 0xFF ∷ 0xFF ∷ [])
    ∷ (0xFF ∷ 0xFF ∷ 0xFF ∷ 0xFF ∷ [])
    ∷ (0xFF ∷ 0xFF ∷ 0xFF ∷ 0xFF ∷ [])
    ∷ (0xFF ∷ 0xFF ∷ 0xFF ∷ 0xFF ∷ [])
    ∷ (0xFF ∷ 0xFF ∷ 0xFF ∷ 0xFF ∷ [])
    ∷ (0xFF ∷ 0xFF ∷ 0xFF ∷ 0xFF ∷ [])
    ∷ (0xFF ∷ 0xFF ∷ 0xFF ∷ 0xFF ∷ [])
    ∷ (0xFF ∷ 0xFF ∷ 0xFF ∷ 0xFF ∷ [])
    ∷ (0xFF ∷ 0xFF ∷ 0xFF ∷ 0xFF ∷ [])
    ∷ (0xFF ∷ 0xFF ∷ 0xFF ∷ 0xFF ∷ [])
    ∷ (0xFF ∷ 0xFF ∷ 0xFF ∷ 0xFF ∷ [])
    ∷ (0xFF ∷ 0xFF ∷ 0xFF ∷ 0xFF ∷ [])
    ∷ (b'7' ∷ b'7' ∷ b'7' ∷ b'7' ∷ [])
    ∷ (b'8' ∷ b'8' ∷ b'8' ∷ b'8' ∷ [])
    ∷ (b'9' ∷ b'9' ∷ b'9' ∷ b'9' ∷ [])
    ∷ (b'-' ∷ b'-' ∷ b'-' ∷ b'-' ∷ [])
    ∷ (b'4' ∷ b'4' ∷ b'4' ∷ b'4' ∷ [])
    ∷ (b'5' ∷ b'5' ∷ b'5' ∷ b'5' ∷ [])
    ∷ (b'6' ∷ b'6' ∷ b'6' ∷ b'6' ∷ [])
    ∷ (b'+' ∷ b'+' ∷ b'+' ∷ b'+' ∷ [])
    ∷ (b'1' ∷ b'1' ∷ b'1' ∷ b'1' ∷ [])
    ∷ (b'2' ∷ b'2' ∷ b'2' ∷ b'2' ∷ [])
    ∷ (b'3' ∷ b'3' ∷ b'3' ∷ b'3' ∷ [])
    ∷ (b'0' ∷ b'0' ∷ b'0' ∷ b'0' ∷ [])
    ∷ (b'.' ∷ b'.' ∷ b'.' ∷ b'.' ∷ [])
    ∷ (0xFF ∷ 0xFF ∷ 0xFF ∷ 0xFF ∷ [])
    ∷ (0xFF ∷ 0xFF ∷ 0xFF ∷ 0xFF ∷ [])
    ∷ (0xFF ∷ 0xFF ∷ 0xFF ∷ 0xFF ∷ [])
    ∷ (0xFF ∷ 0xFF ∷ 0xFF ∷ 0xFF ∷ [])
    ∷ (0xFF ∷ 0xFF ∷ 0xFF ∷ 0xFF ∷ [])
    ∷ (0xFF ∷ 0xFF ∷ 0xFF ∷ 0xFF ∷ [])
    ∷ (0xFF ∷ 0xFF ∷ 0xFF ∷ 0xFF ∷ [])
    ∷ (0xFF ∷ 0xFF ∷ 0xFF ∷ 0xFF ∷ [])
    ∷ (0xFF ∷ 0xFF ∷ 0xFF ∷ 0xFF ∷ [])
    ∷ (0xFF ∷ 0xFF ∷ 0xFF ∷ 0xFF ∷ [])
    ∷ (0xFF ∷ 0xFF ∷ 0xFF ∷ 0xFF ∷ [])
    ∷ (0xFF ∷ 0xFF ∷ 0xFF ∷ 0xFF ∷ [])
    ∷ (0xFF ∷ 0xFF ∷ 0xFF ∷ 0xFF ∷ [])
    ∷ (0xFF ∷ 0xFF ∷ 0xFF ∷ 0xFF ∷ [])
    ∷ (0xFF ∷ 0xFF ∷ 0xFF ∷ 0xFF ∷ [])
    ∷ (0xFF ∷ 0xFF ∷ 0xFF ∷ 0xFF ∷ [])
    ∷ (0xFF ∷ 0xFF ∷ 0xFF ∷ 0xFF ∷ [])
    ∷ (0xFF ∷ 0xFF ∷ 0xFF ∷ 0xFF ∷ [])
    ∷ (0xFF ∷ 0xFF ∷ 0xFF ∷ 0xFF ∷ [])
    ∷ (0xFF ∷ 0xFF ∷ 0xFF ∷ 0xFF ∷ [])
    ∷ (0xFF ∷ 0xFF ∷ 0xFF ∷ 0xFF ∷ [])
    ∷ (0xFF ∷ 0xFF ∷ 0xFF ∷ 0xFF ∷ [])
    ∷ []

-- `scancode_columns[scancode][column]`
unfoldable pub scancode_columns : ℕ → ℕ → ℕ
scancode_columns scancode column = get_or (get_or rows scancode []) column 0

abbrev pub lshift : ℕ
lshift = 0x2A

abbrev pub rshift : ℕ
rshift = 0x36

abbrev pub ctrl : ℕ
ctrl = 0x1D

abbrev pub alt : ℕ
alt = 0x38

-- `special_keys[scancode]`: the column of a modifier key, 0 for every other.
unfoldable pub special_keys : ℕ → ℕ
special_keys scancode =
    if scancode == lshift
    then 1
    else if scancode == rshift
    then 1
    else if scancode == ctrl
    then 2
    else if scancode == alt
    then 3
    else 0
