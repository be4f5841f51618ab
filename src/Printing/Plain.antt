-- ===== src/Printing/Plain.antt =====
-- `kprintf` of a format that holds no `%`.
use lkd.Prelude.{
  ℕ, List, [], ◌∷◌, Option, Bool, true, false, not, ◌&&◌, ◌==◌, ◌≡◌, refl, arith, Option-cases, inl,
  inr,
}
use lkd.Printing.{Printer, write_bytes, Arg}
use lkd.Printing.Format.{kprintf}

abbrev pub plain : List ℕ → Bool
plain [] = true
plain (c ∷ fmt) = not (c == b'%') && plain fmt

module _ {S : Type 0} (write_char : ℕ → S → Option S) (strings : Bool) where
  -- A format without `%` is written as it stands, and the arguments are not looked at.
  pub kprintf-plain :
      (fmt : List ℕ) (args : List Arg) (p : Printer S)
      → plain fmt ≡ true
      → kprintf write_char strings fmt args p ≡ write_bytes write_char fmt p
  unfolding kprintf write_bytes
  kprintf-plain [] args p h = refl
  kprintf-plain (c ∷ []) args p h = elim (Option-cases (write_char c p.device)) [
    | inl silent ↦ ground (arith, silent)
    | inr (s, wrote) ↦ ground (arith, wrote)
  ]
  kprintf-plain (c ∷ d ∷ fmt) args p h =
      let no_directive : (c == b'%') ≡ false = ground arith in
      let rest : plain (d ∷ fmt) ≡ true = ground arith in
      rw no_directive (elim (Option-cases (write_char c p.device)) [
        | inl silent ↦ ground (arith, silent)
        | inr (s, wrote) ↦
            ground (arith, wrote, kprintf-plain (d ∷ fmt) args (record p { device = s }) rest)
      ])
