-- ===== src/Printing/Rendered.antt =====
-- `kprintf` writes the text of its format with its arguments.
use mathlib.Core.Path.{subst}
use lkd.Prelude.{
  ℕ, List, [], ◌∷◌, ◌++◌, Option, none, some, Bool, true, false, ◌==◌, if◌then◌else◌, ◌≡◌, refl,
  arith, Option-cases, Bool-cases, inl, inr,
}
use lkd.Printing.{M, pure, ◌>>=◌, ◌>>◌, put, Arg, write_str, write_bytes}
use lkd.Printing.Format.{warning, kprintf}
use lkd.Printing.Conversions.{
  before, Conversion, percent, char, string, dec, hex, long_hex, unknown, conversion, converted,
  is_known, rendered,
}
use lkd.Printing.Render.{Writes, Writes-then, Writes-pure, Writes-bytes, Writes-put}
use lkd.Printing.Directives.{
  convert, directive-conversion, Writes-ext, Continues, convert-Continues,
}

module _ {S : Type 0} (write_char : ℕ → S → Option S) (strings : Bool) where
  -- What is to hold of a call of `kprintf`.
  abbrev pub Renders : M S (Unit {0}) → Option (List ℕ) → Type 0
  Renders m none = Unit
  Renders m (some cs) = Writes write_char cs m

  Renders-before :
      (xs : List ℕ) (m n : M S (Unit {0})) (r : Option (List ℕ))
      → Writes write_char xs m
      → Renders n r
      → Renders (m >> n) (before xs r)
  Renders-before xs m n none first rest = tt
  Renders-before xs m n (some ys) first rest = Writes-then write_char xs ys m n first rest

  Renders-if :
      (b : Bool) (m n : M S (Unit {0})) (x y : Option (List ℕ))
      → Renders m x
      → Renders n y
      → Renders (if b then m else n) (if b then x else y)
  Renders-if true m n x y yes_case no_case = yes_case
  Renders-if false m n x y yes_case no_case = no_case

  -- A whole string, and what comes behind it.
  Writes-write_str :
      (cs ys : List ℕ) (n : M S (Unit {0}))
      → Writes write_char ys n
      → Writes write_char (cs ++ ys) (write_str write_char cs >>= λ _. n)
  unfolding write_str
  Writes-write_str cs ys n rest =
      Writes-ext write_char (cs ++ ys) (write_bytes write_char cs >> n)
        (write_str write_char cs >>= λ _. n)
        (λ p. elim (Option-cases (write_bytes write_char cs p)) [
          | inl silent ↦ ground (arith, silent)
          | inr (q, wrote) ↦ ground (arith, wrote)
        ])
        (Writes-then write_char cs ys (write_bytes write_char cs) n (Writes-bytes write_char cs)
          rest)

  warned :
      (n : M S (Unit {0})) (r : Option (List ℕ))
      → Renders n r
      → Renders (write_str write_char warning >>= λ _. n) (before warning r)
  warned n none rest = tt
  warned n (some ys) rest = Writes-write_str warning ys n rest

  -- What follows a `%`: `known` is the text behind a directive, `again` what is read as text behind the warning.
  module _ (next : Option (List Arg) → M S (Unit {0})) (known : List Arg → Option (List ℕ))
      (again : Option (List ℕ))
      (known-Renders : (args : List Arg) → Renders (next (some args)) (known args))
      (again-Renders : Renders (next none) (before warning again)) where
    continued :
        (m : M S (Option (List Arg))) (cs : List ℕ) (args : List Arg) (r : Option (List ℕ))
        → ((ys : List ℕ) → Continues write_char ys next m (some (cs, args)))
        → Renders (next (some args)) r
        → Renders (m >>= next) (before cs r)
    continued m cs args none goes rest = tt
    continued m cs args (some ys) goes rest = goes ys rest

    known_continued :
        (m : M S (Option (List Arg))) (r : Option (List ℕ × List Arg))
        → ((ys : List ℕ) → Continues write_char ys next m r)
        → Renders (m >>= next) (elim r [ none ↦ none | some (cs, args) ↦ before cs (known args) ])
    known_continued m none goes = tt
    known_continued m (some (cs, args)) goes =
        continued m cs args (known args) goes (known-Renders args)

    conversion-Renders :
        (k : Conversion) (args : List Arg)
        → Renders (convert write_char k args >>= next) (elim (converted k args) [
          | none ↦ none
          | some (cs, args') ↦ if is_known k then before cs (known args') else before cs again
        ])
    conversion-Renders unknown args = again-Renders
    conversion-Renders percent args =
        known_continued (convert write_char percent args) (converted percent args)
          (λ ys. convert-Continues write_char ys next percent args refl)
    conversion-Renders char args =
        known_continued (convert write_char char args) (converted char args)
          (λ ys. convert-Continues write_char ys next char args refl)
    conversion-Renders string args =
        known_continued (convert write_char string args) (converted string args)
          (λ ys. convert-Continues write_char ys next string args refl)
    conversion-Renders dec args =
        known_continued (convert write_char dec args) (converted dec args)
          (λ ys. convert-Continues write_char ys next dec args refl)
    conversion-Renders hex args =
        known_continued (convert write_char hex args) (converted hex args)
          (λ ys. convert-Continues write_char ys next hex args refl)
    conversion-Renders long_hex args =
        known_continued (convert write_char long_hex args) (converted long_hex args)
          (λ ys. convert-Continues write_char ys next long_hex args refl)

  kprintf-Renders :
      (fmt : List ℕ) (args : List Arg)
      → Renders (kprintf write_char strings fmt args) (rendered strings fmt args)
  unfolding kprintf rendered
  kprintf-Renders [] args = Writes-pure write_char
  kprintf-Renders (c ∷ []) args = elim (Bool-cases (c == b'%')) [
    | inl y ↦ rw y (Writes-write_str warning [] (pure tt) (Writes-pure write_char))
    | inr n ↦ rw n (Writes-put write_char c)
  ]
  kprintf-Renders (c ∷ d ∷ fmt) args =
      let plain =
        Renders-before (c ∷ []) (put write_char c) (kprintf write_char strings (d ∷ fmt) args)
          (rendered strings (d ∷ fmt) args) (Writes-put write_char c)
          (kprintf-Renders (d ∷ fmt) args) in
      Renders-if (c == b'%') _ _ _ _
        (rw (directive-conversion write_char strings d args) (
          conversion-Renders _ (rendered strings fmt) (rendered strings (d ∷ fmt) args)
            (kprintf-Renders fmt)
            (warned (kprintf write_char strings (d ∷ fmt) args) (rendered strings (d ∷ fmt) args)
              (kprintf-Renders (d ∷ fmt) args))
            (conversion strings d) args))
        plain

  Renders-some :
      (m : M S (Unit {0})) (cs : List ℕ) (r : Option (List ℕ))
      → r ≡ some cs
      → Renders m r
      → Writes write_char cs m
  Renders-some m cs r e h = subst (Renders m) e h

  -- Where the conversions of a format fit its arguments, and the stack has room for the digits of a
  -- number, `kprintf` writes the text that they come to: the device goes through its characters in
  -- order, fails only where it fails on one of them, and the stack has the height and the size
  -- that it had.
  pub kprintf-Writes :
      (fmt : List ℕ) (args : List Arg) (cs : List ℕ)
      → rendered strings fmt args ≡ some cs
      → Writes write_char cs (kprintf write_char strings fmt args)
  kprintf-Writes fmt args cs e =
      Renders-some (kprintf write_char strings fmt args) cs (rendered strings fmt args) e
        (kprintf-Renders fmt args)
