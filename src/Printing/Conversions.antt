-- ===== src/Printing/Conversions.antt =====
-- The text of a format with its arguments, worked out from the two alone.
use lkd.Prelude.{
  ℕ, ◌^◌, List, [], ◌∷◌, ◌++◌, Option, none, some, Bool, true, false, ltb, ◌==◌, ◌&&◌,
  if◌then◌else◌, u8,
}
use lkd.Printing.{Arg, word, long, text}
use lkd.Printing.Digits.{dec_text, hex_text}
use lkd.Printing.Format.{warning}

-- A text in front of what the rest gives.
abbrev pub before : List ℕ → Option (List ℕ) → Option (List ℕ)
before xs none = none
before xs (some ys) = some (xs ++ ys)

pub data Conversion : Type 0 where
  percent char string dec hex long_hex unknown : Conversion

-- What the character behind a `%` stands for.
abbrev pub conversion : Bool → ℕ → Conversion
conversion strings d =
    if d == b'%'
    then percent
    else if d == b'c'
    then char
    else if strings && d == b's'
    then string
    else if d == b'd'
    then dec
    else if d == b'x'
    then hex
    else if d == b'X'
    then long_hex
    else unknown

-- The text of a conversion, and the arguments behind the one that it takes; `none` if that one is
-- missing, of another type, or wider than its type.
abbrev pub converted : Conversion → List Arg → Option (List ℕ × List Arg)
converted percent args = some (b'%' ∷ [], args)
converted char (word n ∷ args) = some (u8 n ∷ [], args)
converted string (text s ∷ args) = some (s, args)
converted dec (word n ∷ args) = if ltb n (2 ^ 32) then some (dec_text n, args) else none
converted hex (word n ∷ args) = if ltb n (2 ^ 32) then some (hex_text n 32, args) else none
converted long_hex (long n ∷ args) = if ltb n (2 ^ 64) then some (hex_text n 64, args) else none
converted unknown args = some (warning, args)
converted _ _ = none

abbrev pub is_known : Conversion → Bool
is_known unknown = false
is_known _ = true

-- The text of a format, where its conversions fit the arguments.
unfoldable pub rendered : Bool → List ℕ → List Arg → Option (List ℕ)
rendered strings [] args = some []
rendered strings (c ∷ []) args = some (if c == b'%' then warning else c ∷ [])
rendered strings (c ∷ d ∷ fmt) args =
    let plain = before (c ∷ []) (rendered strings (d ∷ fmt) args) in
    let with_conversion : Option (List ℕ) = elim (converted (conversion strings d) args) [
      | none ↦ none
      | some (cs, args') ↦
          let known = before cs (rendered strings fmt args') in
          let again = before cs (rendered strings (d ∷ fmt) args) in
          if is_known (conversion strings d) then known else again
    ] in
    if c == b'%' then with_conversion else plain
