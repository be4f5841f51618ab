-- ===== src/Printing/Fits.antt =====
-- Which arguments fit a format: as many, of the types that its conversions read, and no wider.
use lkd.Prelude.{
  ℕ, ◌^◌, List, [], ◌∷◌, Option, some, Bool, true, false, ltb, ◌==◌, ◌&&◌, if◌then◌else◌, ◌≡◌, refl,
  ap, arith,
}
use lkd.Printing.{Arg, word, long, text}
use lkd.Printing.Digits.{dec_text, hex_text}
use lkd.Printing.Conversions.{
  Conversion, percent, char, string, dec, hex, long_hex, unknown, conversion, converted, is_known,
  rendered, before,
}

-- Whether the first argument fits a conversion, and the arguments that are left.
abbrev pub checked : Conversion → List Arg → Bool × List Arg
checked percent args = (true, args)
checked char (word n ∷ args) = (true, args)
checked string (text s ∷ args) = (true, args)
checked dec (word n ∷ args) = (ltb n (2 ^ 32), args)
checked hex (word n ∷ args) = (ltb n (2 ^ 32), args)
checked long_hex (long n ∷ args) = (ltb n (2 ^ 64), args)
checked unknown args = (true, args)
checked _ args = (false, args)

abbrev pub fits : Bool → List ℕ → List Arg → Bool
fits strings [] args = true
fits strings (c ∷ []) args = true
fits strings (c ∷ d ∷ fmt) args =
    let k = conversion strings d in
    let (ok, left) = checked k args in
    let known = fits strings fmt left in
    let again = fits strings (d ∷ fmt) args in
    if c == b'%' then ok && (if is_known k then known else again) else again

converted-some :
    (k : Conversion) (args : List Arg)
    → (checked k args).0 ≡ true
    → (cs : List ℕ) × (converted k args ≡ some (cs, (checked k args).1))
converted-some percent args h = (_, refl)
converted-some unknown args h = (_, refl)
converted-some char (word n ∷ args) h = (_, refl)
converted-some string (text s ∷ args) h = (_, refl)
converted-some dec (word n ∷ args) h = (dec_text n, rw h refl)
converted-some hex (word n ∷ args) h = (hex_text n 32, rw h refl)
converted-some long_hex (long n ∷ args) h = (hex_text n 64, rw h refl)
converted-some _ _ h = absurd (ground arith)

module _ (strings : Bool) where
  -- What is to be shown of a format: it has a text.
  abbrev HasText : Option (List ℕ) → Type 0
  HasText r = (cs : List ℕ) × (r ≡ some cs)

  HasText-before : (xs : List ℕ) (r : Option (List ℕ)) → HasText r → HasText (before xs r)
  HasText-before xs r (ys, e) = (_, ap (before xs) e)

  HasText-if :
      (b x y : Bool) (r s : Option (List ℕ))
      → (x ≡ true → HasText r)
      → (y ≡ true → HasText s)
      → (if b then x else y) ≡ true
      → HasText (if b then r else s)
  HasText-if true x y r s yes_case no_case h = yes_case h
  HasText-if false x y r s yes_case no_case h = no_case h

  -- A format has a text with every list of arguments that fits it.
  pub fits-HasText :
      (fmt : List ℕ) (args : List Arg)
      → fits strings fmt args ≡ true
      → HasText (rendered strings fmt args)
  unfolding rendered
  fits-HasText [] args h = (_, refl)
  fits-HasText (c ∷ []) args h = (_, refl)
  fits-HasText (c ∷ d ∷ fmt) args h =
      let k = conversion strings d in
      let left = (checked k args).1 in
      let ok = (checked k args).0 in
      let goes = if is_known k then fits strings fmt left else fits strings (d ∷ fmt) args in
      HasText-if (c == b'%') (ok && goes) (fits strings (d ∷ fmt) args) _ _
        (λ both.
          let first : ok ≡ true = ground (arith, both) in
          let rest : goes ≡ true = ground (arith, both) in
          let (cs, e) = converted-some k args first in
          rw e (
            HasText-if (is_known k) (fits strings fmt left) (fits strings (d ∷ fmt) args) _ _
              (λ fit. HasText-before cs (rendered strings fmt left) (fits-HasText fmt left fit))
              (λ fit.
                HasText-before cs (rendered strings (d ∷ fmt) args)
                  (fits-HasText (d ∷ fmt) args fit))
              rest))
        (λ fit.
          HasText-before (c ∷ []) (rendered strings (d ∷ fmt) args)
            (fits-HasText (d ∷ fmt) args fit))
        h
