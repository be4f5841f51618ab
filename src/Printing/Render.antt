-- ===== src/Printing/Render.antt =====
-- What `kprintf` writes, as a text that is worked out from the format and the arguments alone: the
-- stack and the device have no part in it.
use lkd.Prelude.{
  ℕ, ◌+◌, ◌^◌, ◌≤◌, ◌<◌, List, [], ◌∷◌, ◌++◌, Option, none, some, length, ◌≡◌, refl, ◌∙◌, arith,
  Option-cases, inl, inr,
}
use lkd.Printing.{Printer, M, pure, ◌>>◌, put, stack_size, write_bytes, print_dec, print_hex}
use lkd.Printing.Digits.{dec_text, hex_text, max_digits}
use lkd.Printing.Numbers.{print_dec_lem, print_hex_lem}

module _ {S : Type 0} (write_char : ℕ → S → Option S) where
  -- The device behind a whole text.
  abbrev pub write_all : List ℕ → S → Option S
  write_all [] s = some s
  write_all (c ∷ cs) s = elim (write_char c s) [ none ↦ none | some s' ↦ write_all cs s' ]

  -- Room on the stack for the digits of a number.
  abbrev pub HasRoom : Printer S → Type 0
  HasRoom p = (p.stack_idx + max_digits ≤ stack_size) × (length p.stack ≡ stack_size)

  -- A printer that has written a text, with `st` as its stack.
  abbrev pub after_text : List ℕ → List ℕ → Printer S → Option (Unit {0} × Printer S)
  after_text cs st p = elim (write_all cs p.device) [
    | none ↦ none
    | some s ↦ some (tt, record p { device = s; stack = st })
  ]

  -- The call writes the text and does nothing else, but for what it leaves above the stack's top.
  abbrev pub Writes : List ℕ → M S (Unit {0}) → Type 0
  Writes cs m =
      (p : Printer S)
      → HasRoom p
      → (st : List ℕ) × (length st ≡ stack_size) × (m p ≡ after_text cs st p)

  pub write_bytes_lem :
      (cs : List ℕ) (p : Printer S) → write_bytes write_char cs p ≡ after_text cs p.stack p
  unfolding write_bytes
  write_bytes_lem [] p = refl
  write_bytes_lem (c ∷ cs) p = elim (Option-cases (write_char c p.device)) [
    | inl silent ↦ ground (arith, silent)
    | inr (s, wrote) ↦ ground (arith, wrote, write_bytes_lem cs (record p { device = s }))
  ]

  write_all-append :
      (xs ys : List ℕ) (s s' : S)
      → write_all xs s ≡ some s'
      → write_all (xs ++ ys) s ≡ write_all ys s'
  write_all-append [] ys s s' e = ground (arith, e)
  write_all-append (x ∷ xs) ys s s' e = elim (Option-cases (write_char x s)) [
    | inl silent ↦ ground (arith, silent, e)
    | inr (t, wrote) ↦ ground (arith, wrote, e, write_all-append xs ys t s')
  ]

  write_all-append_none :
      (xs ys : List ℕ) (s : S) → write_all xs s ≡ none → write_all (xs ++ ys) s ≡ none
  write_all-append_none [] ys s e = ground (arith, e)
  write_all-append_none (x ∷ xs) ys s e = elim (Option-cases (write_char x s)) [
    | inl silent ↦ ground (arith, silent, e)
    | inr (t, wrote) ↦ ground (arith, wrote, e, write_all-append_none xs ys t)
  ]

  pub Writes-then :
      (xs ys : List ℕ) (m n : M S (Unit {0}))
      → Writes xs m
      → Writes ys n
      → Writes (xs ++ ys) (m >> n)
  Writes-then xs ys m n first second p room =
      let (st, len, wrote) = first p room in
      elim (Option-cases (write_all xs p.device)) [
        | inl silent ↦
            (st, len, ground (arith, wrote, silent, write_all-append_none xs ys p.device silent))
        | inr (s, written) ↦
            let (st', len', wrote') = second (record p { device = s; stack = st }) (room.0, len) in
            (
              st',
              len',
              ground (arith, wrote, written, wrote', write_all-append xs ys p.device s written),
            )
      ]

  pub Writes-pure : Writes [] (pure tt)
  Writes-pure p room = (p.stack, room.1, refl)

  pub Writes-bytes : (cs : List ℕ) → Writes cs (write_bytes write_char cs)
  Writes-bytes cs p room = (p.stack, room.1, write_bytes_lem cs p)

  pub Writes-put : (c : ℕ) → Writes (c ∷ []) (put write_char c)
  Writes-put c p room = (
    p.stack,
    room.1,
    elim (Option-cases (write_char c p.device)) [
      | inl silent ↦ ground (arith, silent)
      | inr (s, wrote) ↦ ground (arith, wrote)
    ],
  )

  pub Writes-dec : (v : ℕ) → v < 2 ^ 32 → Writes (dec_text v) (print_dec write_char v)
  Writes-dec v h p room =
      let (st, len, wrote) = print_dec_lem write_char v p h room.0 room.1 in
      (st, len, wrote ∙ write_bytes_lem (dec_text v) (record p { stack = st }))

  pub Writes-hex :
      (v bits : ℕ) → v < 2 ^ 64 → Writes (hex_text v bits) (print_hex write_char v bits)
  Writes-hex v bits h p room =
      let (st, len, wrote) = print_hex_lem write_char v bits p h room.0 room.1 in
      (st, len, wrote ∙ write_bytes_lem (hex_text v bits) (record p { stack = st }))
