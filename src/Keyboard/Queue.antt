-- ===== src/Keyboard/Queue.antt =====
-- The key queue as a FIFO: what the handler appends and what `getchar` takes.
use mathlib.Core.Path.{ap₂}
use native.Mathlib.Decide.{ℕ_discrete}
use lkd.Prelude.{
  ℕ, zero, suc, ◌+◌, ◌-◌, ◌≤◌, ◌<◌, List, [], ◌∷◌, ◌++◌, some, none, true, false, get_or,
  get_or-set_self, get_or-set_ne, set, length, length-set, length-replicate, u32, ◌≡◌, ap, ◌∙◌,
  arith, ◌⊎◌, inl, inr,
}
use lkd.Keyboard.{Keyboard, keyboard, enqueue, getchar, keyboard_queue_size}

pub record IsValid (k : Keyboard) : Type 0 where
  pub ready : k.init ≡ true
  pub queue_size : length k.queue ≡ keyboard_queue_size
  pub idx_in : k.idx ≤ keyboard_queue_size
  pub read_in : k.read ≤ k.idx
  pub column_in : k.column < 4

-- The `n` characters from index `r` on.
abbrev pub window : List ℕ → ℕ → ℕ → List ℕ
window q r zero = []
window q r (suc n) = get_or q r 0 ∷ window q (r + 1) n

-- The characters that were typed and not yet read, oldest first.
abbrev pub pending : Keyboard → List ℕ
pending k = window k.queue k.read (k.idx - k.read)

-- Writing behind a window extends it.
window-set :
    (q : List ℕ) (r n v : ℕ)
    → r + n < length q
    → window (set q (r + n) v) r (suc n) ≡ window q r n ++ v ∷ []
window-set q r zero v h =
    ap (λ c. c ∷ [])
      (ap (λ i. get_or (set q i v) r 0) (omega arith) ∙ get_or-set_self q r v 0 (omega arith))
window-set q r (suc n) v h = ap₂ ◌∷◌ (get_or-set_ne q (r + suc n) r v 0 (omega arith)) (
    ap (λ i. window (set q i v) (r + 1) (suc n)) (omega arith)
    ∙ window-set q (r + 1) n v (omega arith))

pub keyboard-IsValid :
    (k : Keyboard) → k.init ≡ false → IsValid (keyboard k) × (pending (keyboard k) ≡ [])
unfolding keyboard
keyboard-IsValid k off = ground (arith, length-replicate {A = ℕ} keyboard_queue_size 0)

module _ (k : Keyboard) (v : IsValid k) where
  -- A character that fits goes behind those that wait.
  pub enqueue_lem :
      (ch : ℕ)
      → k.idx < keyboard_queue_size
      → IsValid (enqueue ch k) × (pending (enqueue ch k) ≡ pending k ++ ch ∷ [])
  unfolding enqueue
  enqueue_lem ch room =
      let at : k.idx ≡ k.read + (k.idx - k.read) = omega (arith, v.read_in) in
      let more : u32 (k.idx + 1) - k.read ≡ suc (k.idx - k.read) = omega (arith, v.read_in) in
      (
        ground (arith, length-set k.queue k.idx ch),
        ap₂ (λ i n. window (set k.queue i ch) k.read n) at more
            ∙ window-set k.queue k.read (k.idx - k.read) ch
                (omega (arith, v.read_in, v.queue_size)),
      )

  -- On a valid keyboard, `getchar` waits exactly when nothing is pending, and else takes the
  -- oldest character.
  pub getchar_lem :
      ((getchar k ≡ none) × (pending k ≡ []))
      ⊎ ((c : ℕ) × (k' : Keyboard) × (getchar k ≡ some (c, k'))
          × (pending k ≡ c ∷ pending k')
          × IsValid k')
  unfolding getchar
  getchar_lem = elim (ℕ_discrete k.read k.idx) [
    | yes e ↦
        let empty : k.idx - k.read ≡ 0 = omega arith in
        inl (ground arith, ap (window k.queue k.read) empty)
    | no ne ↦
        let some_left : k.idx - k.read ≡ suc (k.idx - (k.read + 1)) = omega (arith, v.read_in) in
        let next : k.read + 1 ≡ u32 (k.read + 1) = omega (arith, v.read_in, v.idx_in) in
        inr (
          get_or k.queue k.read 0,
          record k { read = u32 (k.read + 1) },
          ground arith,
          ap (window k.queue k.read) some_left
              ∙ ap (λ r. get_or k.queue k.read 0 ∷ window k.queue r (k.idx - r)) next,
          ground arith,
        )
  ]
