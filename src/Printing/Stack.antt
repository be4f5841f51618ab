-- ===== src/Printing/Stack.antt =====
-- The printers' stack: the loop that divides a number down leaves its digits there, the highest on
-- top.
use native.Mathlib.Nat.{div-lt_iff_lt-mul, pow-suc, pow-zero}
use native.Mathlib.Decide.{ℕ_discrete}
use mathlib.Core.Path.{ap₂}
use lkd.Prelude.{
  ℕ, zero, suc, ◌+◌, ◌-◌, ◌/◌, ◌%◌, ◌^◌, ◌≤◌, ◌<◌, List, [], ◌∷◌, ◌++◌, Option, some, false, ◌==◌,
  length, length-append, length-set, get_or, set, get_or-set_self, get_or-set_ne,
  get_elem?-eq-get_or, ◌≡◌, ◌≢◌, refl, ap, ◌∙◌, arith, lt→ltb,
}
use lkd.Printing.{Printer, stack_size, push_stack, pop_stack, push_digits}
use lkd.Printing.Digits.{digits, digits-none, digits-suc, digits-zero}

-- The `n` values above `idx` on the stack, the top one first.
abbrev pub popped : List ℕ → ℕ → ℕ → List ℕ
popped st idx zero = []
popped st idx (suc n) = get_or st (idx + n) 0 ∷ popped st idx n

popped-suc :
    (st : List ℕ) (idx n : ℕ)
    → popped st idx (suc n) ≡ popped st (idx + 1) n ++ (get_or st idx 0 ∷ [])
popped-suc st idx zero = ap (λ k. get_or st k 0 ∷ []) (omega arith)
popped-suc st idx (suc n) = ap₂ ◌∷◌ (ap (λ k. get_or st k 0) (omega arith)) (popped-suc st idx n)

pub ne→==false : (a b : ℕ) → a ≢ b → (a == b) ≡ false
ne→==false a b h = ground arith

module _ {S : Type 0} where
  -- The digits of `v` have been pushed onto the stack of `p`, and `n` counted on.
  pub record Pushed (ds : List ℕ) (n : ℕ) (p : Printer S) (result : Option (ℕ × Printer S))
      : Type 0 where
    pub stack : List ℕ
    pub returns :
        result
        ≡ some (n + length ds, record p { stack = stack; stack_idx = p.stack_idx + length ds })
    pub same_length : length stack ≡ length p.stack
    pub pushed : popped stack p.stack_idx (length ds) ≡ ds
    pub below : (j : ℕ) → j < p.stack_idx → get_or stack j 0 ≡ get_or p.stack j 0

  push_digits-done :
      (fuel base n : ℕ) (p : Printer S) → push_digits (suc fuel) base 0 n p ≡ some (n, p)
  unfolding push_digits
  push_digits-done fuel base n p = refl

  abbrev with_digit : ℕ → Printer S → Printer S
  with_digit d p = record p { stack = set p.stack p.stack_idx d; stack_idx = p.stack_idx + 1 }

  push_stack_lem :
      (d : ℕ) (p : Printer S)
      → p.stack_idx < stack_size
      → push_stack d p ≡ some (tt, with_digit d p)
  unfolding push_stack
  push_stack_lem d p room = rw (lt→ltb p.stack_idx stack_size room)

  pub pop_stack_lem :
      (k : ℕ) (p : Printer S)
      → p.stack_idx ≡ suc k
      → k < length p.stack
      → pop_stack p ≡ some (get_or p.stack k 0, record p { stack_idx = k })
  unfolding pop_stack
  pop_stack_lem k p e h =
      let below : p.stack_idx - 1 ≡ k = omega arith in
      rw (ne→==false p.stack_idx 0 (omega arith), below, get_elem?-eq-get_or p.stack k 0 h)

  push_digits-step :
      (fuel base v n : ℕ) (p : Printer S)
      → v ≢ 0
      → p.stack_idx < stack_size
      → push_digits (suc fuel) base v n p
        ≡ push_digits fuel base (v / base) (n + 1) (with_digit (v % base) p)
  unfolding push_digits
  push_digits-step fuel base v n p nz room = ground (arith, push_stack_lem (v % base) p room)

  Pushed-none : (n : ℕ) (p : Printer S) → Pushed [] n p (some (n, p))
  Pushed-none n p = record {
    stack = p.stack;
    returns = ground arith;
    same_length = refl;
    pushed = refl;
    below = λ j h. refl;
  }

  Pushed-snoc :
      (ds : List ℕ) (d n : ℕ) (p : Printer S) {r : Option (ℕ × Printer S)}
      → p.stack_idx < length p.stack
      → Pushed ds (n + 1) (with_digit d p) r
      → Pushed (ds ++ (d ∷ [])) n p r
  Pushed-snoc ds d n p room rest =
      let one_more : length (ds ++ (d ∷ [])) ≡ suc (length ds) =
        omega (arith, length-append ds (d ∷ [])) in
      record {
        stack = rest.stack;
        returns = rw one_more (ground (arith, rest.returns));
        same_length = rest.same_length ∙ length-set p.stack p.stack_idx d;
        pushed =
            ap (popped rest.stack p.stack_idx) one_more
            ∙ popped-suc rest.stack p.stack_idx (length ds)
            ∙ ap₂ (λ a b. a ++ (b ∷ [])) rest.pushed
                (rest.below p.stack_idx (omega arith)
                  ∙ get_or-set_self p.stack p.stack_idx d 0 room);
        below = λ j h.
            rest.below j (omega arith) ∙ get_or-set_ne p.stack p.stack_idx j d 0 (omega arith);
      }

  pub push_digits-Pushed :
      (fuel base v n : ℕ) (p : Printer S)
      → 0 < base
      → v < base ^ fuel
      → p.stack_idx + fuel ≤ stack_size
      → length p.stack ≡ stack_size
      → Pushed (digits fuel base v) n p (push_digits (suc fuel) base v n p)
  push_digits-Pushed zero base v n p b h room len =
      let z : v ≡ 0 = omega (arith, pow-zero base) in
      rw (z, digits-none, push_digits-done zero base n p) (Pushed-none n p)
  push_digits-Pushed (suc fuel) base v n p b h room len = elim (ℕ_discrete v 0) [
    | yes z ↦ rw (z, digits-zero, push_digits-done (suc fuel) base n p) (Pushed-none n p)
    | no nz ↦
        let smaller : v / base < base ^ fuel =
          (div-lt_iff_lt-mul b).1 (rw (← pow-suc base fuel) h) in
        let rest =
          push_digits-Pushed fuel base (v / base) (n + 1) (with_digit (v % base) p) b smaller
            (omega arith) (length-set p.stack p.stack_idx (v % base) ∙ len) in
        rw (digits-suc fuel base v nz, push_digits-step (suc fuel) base v n p nz (omega arith))
          (Pushed-snoc (digits fuel base (v / base)) (v % base) n p (omega arith) rest)
  ]
