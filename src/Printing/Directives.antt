-- ===== src/Printing/Directives.antt =====
-- A directive of `kprintf` writes the text of its conversion and takes its argument.
use lkd.Prelude.{
  ℕ, ◌^◌, List, [], ◌∷◌, ◌++◌, Option, none, some, Bool, true, false, ltb, ltb→lt, ◌==◌, ◌&&◌,
  if◌then◌else◌, u8, ◌≡◌, refl, ◌∙◌, arith, Option-cases, Bool-cases, inl, inr,
}
use lkd.Printing.{
  Printer, M, pure, ◌>>=◌, ◌>>◌, put, Arg, word, long, text, write_str, write_bytes, print_dec,
  print_hex,
}
use lkd.Printing.Digits.{dec_text, hex_text}
use lkd.Printing.Format.{next_word, next_long, next_text, directive}
use lkd.Printing.Conversions.{
  Conversion, percent, char, string, dec, hex, long_hex, unknown, conversion, converted, is_known,
}
use lkd.Printing.Render.{Writes, Writes-then, Writes-bytes, Writes-put, Writes-dec, Writes-hex}

module _ {S : Type 0} (write_char : ℕ → S → Option S) where
  -- A directive, by its conversion.
  abbrev pub convert : Conversion → List Arg → M S (Option (List Arg))
  convert percent args = put write_char b'%' >> pure (some args)
  convert char args = next_word args >>= λ a. put write_char (u8 a.0) >> pure (some a.1)
  convert string args = next_text args >>= λ a. write_str write_char a.0 >>= λ _. pure (some a.1)
  convert dec args = next_word args >>= λ a. print_dec write_char a.0 >> pure (some a.1)
  convert hex args = next_word args >>= λ a. print_hex write_char a.0 32 >> pure (some a.1)
  convert long_hex args = next_long args >>= λ a. print_hex write_char a.0 64 >> pure (some a.1)
  convert unknown args = pure none

  pub directive-conversion :
      (strings : Bool) (d : ℕ) (args : List Arg)
      → directive write_char strings d args ≡ convert (conversion strings d) args
  unfolding directive
  directive-conversion strings d args = elim (Bool-cases (d == b'%')) [
    | inl y1 ↦ rw (y1) refl
    | inr n1 ↦ elim (Bool-cases (d == b'c')) [
      | inl y2 ↦ rw (n1, y2) refl
      | inr n2 ↦ elim (Bool-cases (strings && d == b's')) [
        | inl y3 ↦ rw (n1, n2, y3) refl
        | inr n3 ↦ elim (Bool-cases (d == b'd')) [
          | inl y4 ↦ rw (n1, n2, n3, y4) refl
          | inr n4 ↦ elim (Bool-cases (d == b'x')) [
            | inl y5 ↦ rw (n1, n2, n3, n4, y5) refl
            | inr n5 ↦ elim (Bool-cases (d == b'X')) [
              | inl y6 ↦ rw (n1, n2, n3, n4, n5, y6) refl
              | inr n6 ↦ rw (n1, n2, n3, n4, n5, n6) refl
            ]
          ]
        ]
      ]
    ]
  ]

  pub Writes-ext :
      (cs : List ℕ) (m n : M S (Unit {0}))
      → ((p : Printer S) → n p ≡ m p)
      → Writes write_char cs m
      → Writes write_char cs n
  Writes-ext cs m n same writes p room =
      let (st, len, wrote) = writes p room in (st, len, same p ∙ wrote)

  module _ (ys : List ℕ) (next : Option (List Arg) → M S (Unit {0})) where
    -- What is written before a value is passed on.
    Writes-passed :
        (cs : List ℕ) (m : M S (Unit {0})) (r : Option (List Arg))
        → Writes write_char cs m
        → Writes write_char ys (next r)
        → Writes write_char (cs ++ ys) ((m >> pure r) >>= next)
    Writes-passed cs m r first rest =
        Writes-ext (cs ++ ys) (m >> next r) ((m >> pure r) >>= next)
          (λ p. elim (Option-cases (m p)) [
            | inl silent ↦ ground (arith, silent)
            | inr (q, wrote) ↦ ground (arith, wrote)
          ])
          (Writes-then write_char cs ys m (next r) first rest)

    -- What is to hold of a directive, by what it converts to.
    abbrev pub Continues : M S (Option (List Arg)) → Option (List ℕ × List Arg) → Type 0
    Continues m none = Unit
    Continues m (some (cs, args)) =
        Writes write_char ys (next (some args)) → Writes write_char (cs ++ ys) (m >>= next)

    Continues-sized :
        (b : Bool) (m : M S (Option (List Arg))) (r : List ℕ × List Arg)
        → (b ≡ true → Continues m (some r))
        → Continues m (if b then some r else none)
    Continues-sized false m r h = tt
    Continues-sized true m r h = h refl

    pub convert-Continues :
        (k : Conversion) (args : List Arg)
        → is_known k ≡ true
        → Continues (convert k args) (converted k args)
    unfolding next_word next_long next_text write_str
    convert-Continues percent args known = λ rest.
        Writes-passed (b'%' ∷ []) (put write_char b'%') (some args) (Writes-put write_char b'%')
          rest
    convert-Continues char [] known = tt
    convert-Continues char (word n ∷ args) known = λ rest.
        Writes-passed (u8 n ∷ []) (put write_char (u8 n)) (some args) (Writes-put write_char (u8 n))
          rest
    convert-Continues char (long n ∷ args) known = tt
    convert-Continues char (text s ∷ args) known = tt
    convert-Continues string [] known = tt
    convert-Continues string (word n ∷ args) known = tt
    convert-Continues string (long n ∷ args) known = tt
    convert-Continues string (text s ∷ args) known = λ rest.
        Writes-ext (s ++ ys) (write_bytes write_char s >> next (some args))
          (convert string (text s ∷ args) >>= next)
          (λ p. elim (Option-cases (write_bytes write_char s p)) [
            | inl silent ↦ ground (arith, silent)
            | inr (q, wrote) ↦ ground (arith, wrote)
          ])
          (Writes-then write_char s ys (write_bytes write_char s) (next (some args))
            (Writes-bytes write_char s) rest)
    convert-Continues dec [] known = tt
    convert-Continues dec (word n ∷ args) known =
        Continues-sized (ltb n (2 ^ 32)) (convert dec (word n ∷ args)) (dec_text n, args)
          (λ small rest.
            Writes-passed (dec_text n) (print_dec write_char n) (some args)
              (Writes-dec write_char n (ltb→lt n (2 ^ 32) small)) rest)
    convert-Continues dec (long n ∷ args) known = tt
    convert-Continues dec (text s ∷ args) known = tt
    convert-Continues hex [] known = tt
    convert-Continues hex (word n ∷ args) known =
        Continues-sized (ltb n (2 ^ 32)) (convert hex (word n ∷ args)) (hex_text n 32, args)
          (λ small rest.
            Writes-passed (hex_text n 32) (print_hex write_char n 32) (some args)
              (Writes-hex write_char n 32 (omega (arith, ltb→lt n (2 ^ 32) small))) rest)
    convert-Continues hex (long n ∷ args) known = tt
    convert-Continues hex (text s ∷ args) known = tt
    convert-Continues long_hex [] known = tt
    convert-Continues long_hex (long n ∷ args) known =
        Continues-sized (ltb n (2 ^ 64)) (convert long_hex (long n ∷ args)) (hex_text n 64, args)
          (λ small rest.
            Writes-passed (hex_text n 64) (print_hex write_char n 64) (some args)
              (Writes-hex write_char n 64 (ltb→lt n (2 ^ 64) small)) rest)
    convert-Continues long_hex (word n ∷ args) known = tt
    convert-Continues long_hex (text s ∷ args) known = tt
    convert-Continues unknown args known = absurd (ground arith)
