-- ===== src/Prelude/Tables.antt =====
-- A test that every number below a bound passes, from running it on each.
use Prim.Native.Nat.{ℕ, zero, suc, ◌<◌}
use native.Mathlib.Decide.{ℕ_discrete}
use mathlib.Core.Path.{◌≡◌, ap, ◌∙◌}
use mathlib.Core.Bool.{Bool, true, ◌&&◌}
use native.Mathlib.Omega.{arith}

unfoldable pub passes : (ℕ → Bool) → ℕ → Bool
passes test zero = true
passes test (suc last) = test last && passes test last

pub passes_lem :
    (test : ℕ → Bool) (bound : ℕ) → passes test bound ≡ true → (i : ℕ) → i < bound → test i ≡ true
unfolding passes
passes_lem test zero all i below = absurd (omega arith)
passes_lem test (suc last) all i below = elim (ℕ_discrete i last) [
  | yes top ↦ ap test top ∙ ground arith
  | no lower ↦ passes_lem test last (ground arith) i (omega arith)
]
