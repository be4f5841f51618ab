-- ===== src/Printing/Format.antt =====
-- `kprintf`. The two devices differ in `%s`, which `vga::VGA` does not read: `strings` tells.
use lkd.Prelude.{ℕ, List, [], ◌∷◌, Option, none, some, Bool, ◌==◌, ◌&&◌, if◌then◌else◌, codes, u8}
use lkd.Printing.{
  M, pure, fault, ◌>>=◌, ◌>>◌, put, Arg, word, long, text, write_str, print_dec, print_hex,
}

-- `va_arg` at the three types; another argument, or none, is undefined in C.
unfoldable pub next_word : {S : Type 0} → List Arg → M S (ℕ × List Arg)
next_word (word n ∷ args) = pure (n, args)
next_word _ = fault

unfoldable pub next_long : {S : Type 0} → List Arg → M S (ℕ × List Arg)
next_long (long n ∷ args) = pure (n, args)
next_long _ = fault

unfoldable pub next_text : {S : Type 0} → List Arg → M S (List ℕ × List Arg)
next_text (text s ∷ args) = pure (s, args)
next_text _ = fault

-- "[WARNING] Invalid printing format!\n"
abbrev pub warning : List ℕ
warning = codes "[WARNING] Invalid printing format!\n"

module _ {S : Type 0} (write_char : ℕ → S → Option S) (strings : Bool) where
  -- The character behind a `%`: the arguments left, or `none` if it is no directive.
  unfoldable pub directive : ℕ → List Arg → M S (Option (List Arg))
  directive d args =
      if d == b'%'
      then (put write_char b'%' >> pure (some args))
      else if d == b'c'
      then (next_word args >>= λ a. put write_char (u8 a.0) >> pure (some a.1))
      else if strings && d == b's'
      then (next_text args >>= λ a. write_str write_char a.0 >>= λ _. pure (some a.1))
      else if d == b'd'
      then (next_word args >>= λ a. print_dec write_char a.0 >> pure (some a.1))
      else if d == b'x'
      then (next_word args >>= λ a. print_hex write_char a.0 32 >> pure (some a.1))
      else if d == b'X'
      then (next_long args >>= λ a. print_hex write_char a.0 64 >> pure (some a.1))
      else pure none

  -- The loop over the format. A `%` that no directive follows gives the warning, and what follows is
  -- read as text; the terminator is no directive.
  unfoldable pub kprintf : List ℕ → List Arg → M S (Unit {0})
  kprintf [] args = pure tt
  kprintf (c ∷ []) args =
      if c == b'%' then (write_str write_char warning >>= λ _. pure tt) else put write_char c
  kprintf (c ∷ d ∷ fmt) args =
      let plain = put write_char c >> kprintf (d ∷ fmt) args in
      let formatted = directive d args >>= λ r. elim r [
        | some args' ↦ kprintf fmt args'
        | none ↦ write_str write_char warning >>= λ _. kprintf (d ∷ fmt) args
      ] in
      if c == b'%' then formatted else plain
