-- ===== src/Printing/Numbers.antt =====
-- `print_dec` and `print_hex` write the digits of their number, whatever the device.
use native.Mathlib.Decide.{ℕ_discrete}
use mathlib.Core.Path.{fun_ext}
use mathlib.Core.List.{append_assoc}
use lkd.Prelude.{
  ℕ, zero, suc, ◌+◌, ◌-◌, ◌/◌, ◌^◌, ◌≤◌, ◌<◌, List, [], ◌∷◌, ◌++◌, map, Option, some, codes, length,
  get_or, replicate, ◌≡◌, ◌≢◌, inl, inr, refl, ap, ◌∙◌, arith, Option-cases,
}
use lkd.Printing.{
  Printer, M, ◌>>◌, stack_size, push_digits, digit_rounds, write_bytes, write_str, write_repeated,
  write_digits, hex_glyph, dec_glyph, print_dec, print_hex,
}
use lkd.Printing.Digits.{digits, dec_text, hex_text, max_digits, length-digits-le}
use lkd.Printing.Stack.{popped, ne→==false, Pushed, pop_stack_lem, push_digits-Pushed}

module _ {S : Type 0} (write_char : ℕ → S → Option S) where
  -- Popping `n` digits writes their glyphs, the top one first, and nothing else happens.
  write_digits_lem :
      (glyph : ℕ → ℕ) (n idx : ℕ) (p : Printer S)
      → p.stack_idx ≡ idx + n
      → idx + n ≤ length p.stack
      → write_digits write_char glyph n p
        ≡ write_bytes write_char (map glyph (popped p.stack idx n)) (record p { stack_idx = idx })
  unfolding write_digits write_bytes
  write_digits_lem glyph zero idx p e h = ground arith
  write_digits_lem glyph (suc n) idx p e h =
      let top = pop_stack_lem (idx + n) p (omega arith) (omega arith) in
      elim (Option-cases (write_char (glyph (get_or p.stack (idx + n) 0)) p.device)) [
        | inl silent ↦ ground (arith, top, silent)
        | inr (s, wrote) ↦
            let rest =
              write_digits_lem glyph n idx (record p { device = s; stack_idx = idx + n }) refl
                (omega arith) in
            ground (arith, top, wrote, rest)
      ]

  write_bytes-append :
      (xs ys : List ℕ)
      → write_bytes write_char (xs ++ ys) ≡ (write_bytes write_char xs >> write_bytes write_char ys)
  unfolding write_bytes
  write_bytes-append [] ys = refl
  write_bytes-append (x ∷ xs) ys = fun_ext λ p. elim (Option-cases (write_char x p.device)) [
    | inl silent ↦ ground (arith, silent)
    | inr (s, wrote) ↦ ground (
      arith,
      wrote,
      ap (λ (f : M S (Unit {0})). f (record p { device = s })) (write_bytes-append xs ys),
    )
  ]

  write_repeated_lem :
      (ch n : ℕ) → write_repeated write_char ch n ≡ write_bytes write_char (replicate n ch)
  unfolding write_repeated write_bytes
  write_repeated_lem ch zero = refl
  write_repeated_lem ch (suc n) = rw (write_repeated_lem ch n)

  print_dec-zero :
      (p : Printer S) → print_dec write_char 0 p ≡ write_bytes write_char (dec_text 0) p
  unfolding print_dec write_bytes
  print_dec-zero p = ground arith

  -- The digits that were pushed come back from the stack in reading order.
  write-Pushed :
      (glyph : ℕ → ℕ) (ds : List ℕ) (p : Printer S) {r : Option (ℕ × Printer S)}
      → length p.stack ≡ stack_size
      → p.stack_idx + length ds ≤ stack_size
      → (pushed : Pushed ds 0 p r)
      → write_digits write_char glyph
          (0 + length ds)
          (record p { stack = pushed.stack; stack_idx = p.stack_idx + length ds })
        ≡ write_bytes write_char (map glyph ds) (record p { stack = pushed.stack })
  write-Pushed glyph ds p len room pushed =
      ap
        (λ n.
          write_digits write_char glyph n
            (record p { stack = pushed.stack; stack_idx = p.stack_idx + length ds }))
        (omega arith)
      ∙ write_digits_lem glyph (length ds) p.stack_idx
          (record p { stack = pushed.stack; stack_idx = p.stack_idx + length ds }) refl
          (omega (arith, pushed.same_length))
      ∙ ap (λ xs. write_bytes write_char (map glyph xs) (record p { stack = pushed.stack }))
          pushed.pushed

  print_dec-digits :
      (v n : ℕ) (p q : Printer S)
      → v ≢ 0
      → push_digits digit_rounds 10 v 0 p ≡ some (n, q)
      → print_dec write_char v p ≡ write_digits write_char dec_glyph n q
  unfolding print_dec
  print_dec-digits v n p q nz e = ground arith

  -- `print_dec` writes the decimal digits of a `uint32_t`, no more, and leaves the stack's height.
  pub print_dec_lem :
      (v : ℕ) (p : Printer S)
      → v < 2 ^ 32
      → p.stack_idx + max_digits ≤ stack_size
      → length p.stack ≡ stack_size
      → (st : List ℕ) × (length st ≡ stack_size)
        × (print_dec write_char v p ≡ write_bytes write_char (dec_text v) (record p { stack = st }))
  print_dec_lem v p h room len = elim (ℕ_discrete v 0) [
    | yes z ↦ (p.stack, len, rw z (print_dec-zero p))
    | no nz ↦
        let pushed : Pushed (digits max_digits 10 v) 0 p (push_digits digit_rounds 10 v 0 p) =
          push_digits-Pushed max_digits 10 v 0 p (omega arith) (omega arith) room len in
        (
          pushed.stack,
          pushed.same_length ∙ len,
          rw (ne→==false v 0 nz) (
              print_dec-digits v _ p _ nz pushed.returns
              ∙ write-Pushed dec_glyph (digits max_digits 10 v) p len
                  (omega (arith, length-digits-le max_digits 10 v)) pushed),
        )
  ]

  print_hex-digits :
      (v bits n : ℕ) (p q : Printer S)
      → push_digits digit_rounds 16 v 0 p ≡ some (n, q)
      → print_hex write_char v bits p
        ≡ (write_bytes write_char (codes "0x" ++ replicate (bits / 4 - n) b'0')
              >> write_digits write_char hex_glyph n)
            q
  unfolding print_hex write_str
  print_hex-digits v bits n p q e = rw (write_bytes-append, ← write_repeated_lem) (ground arith)

  -- Text before the digits changes the device alone.
  write_text_pushed :
      (glyph : ℕ → ℕ) (xs ds st : List ℕ) (idx : ℕ) (q : Printer S)
      → q.stack ≡ st
      → q.stack_idx ≡ idx + length ds
      → idx + length ds ≤ length st
      → popped st idx (length ds) ≡ ds
      → (write_bytes write_char xs >> write_digits write_char glyph (length ds)) q
        ≡ write_bytes write_char (xs ++ map glyph ds) (record q { stack_idx = idx })
  unfolding write_bytes
  write_text_pushed glyph [] ds st idx q es ei room e =
      write_digits_lem glyph (length ds) idx q ei (rw es room)
      ∙ ap (λ ys. write_bytes write_char (map glyph ys) (record q { stack_idx = idx }))
          (ap (λ t. popped t idx (length ds)) es ∙ e)
  write_text_pushed glyph (x ∷ xs) ds st idx q es ei room e =
      elim (Option-cases (write_char x q.device)) [
        | inl silent ↦ ground (arith, silent)
        | inr (s, wrote) ↦ ground (
          arith,
          wrote,
          write_text_pushed glyph xs ds st idx (record q { device = s }) es ei room e,
        )
      ]

  -- `print_hex` writes `0x` and the hexadecimal digits of a `uint64_t`, padded with zeros to a digit
  -- for each four bits, and leaves the stack's height.
  pub print_hex_lem :
      (v bits : ℕ) (p : Printer S)
      → v < 2 ^ 64
      → p.stack_idx + max_digits ≤ stack_size
      → length p.stack ≡ stack_size
      → (st : List ℕ) × (length st ≡ stack_size)
        × (print_hex write_char v bits p
            ≡ write_bytes write_char (hex_text v bits) (record p { stack = st }))
  print_hex_lem v bits p h room len =
      let ds : List ℕ = digits max_digits 16 v in
      let pushed : Pushed ds 0 p (push_digits digit_rounds 16 v 0 p) =
        push_digits-Pushed max_digits 16 v 0 p (omega arith) (omega arith) room len in
      let q : Printer S = record p { stack = pushed.stack; stack_idx = p.stack_idx + length ds } in
      let count : 0 + length ds ≡ length ds = omega arith in
      (
        pushed.stack,
        pushed.same_length ∙ len,
        print_hex-digits v bits (length ds) p q (pushed.returns ∙ ap (λ n. some (n, q)) count)
            ∙ write_text_pushed hex_glyph (codes "0x" ++ replicate (bits / 4 - length ds) b'0') ds
                pushed.stack p.stack_idx q refl refl
                (omega (arith, length-digits-le max_digits 16 v, pushed.same_length)) pushed.pushed
            ∙ ap (λ xs. write_bytes write_char xs (record p { stack = pushed.stack }))
                (append_assoc (codes "0x") (replicate (bits / 4 - length ds) b'0')
                  (map hex_glyph ds)),
      )
