-- ===== src/Paging/Copies.antt =====
-- A copy to addresses that a directory maps to one run of physical memory.
use lkd.Prelude.{ℕ, zero, suc, ◌+◌, ◌≤◌, ◌<◌, some, ◌≡◌, ◌⊎◌, refl, arith}
use lkd.Memory.{Memory, load32, store8}
use lkd.Memory.Laws.{load32-ext}
use lkd.Strings.{copy_up_from, memcpy}
use lkd.Paging.{entry_at, pd_index, pt_index}
use lkd.Paging.Walk.{table_of, walk}
use lkd.Paging.Access.{translate, copy_to_from, copy_to}

-- The memories differ at most in the `n` bytes from `base` on.
abbrev pub SameBut : ℕ → ℕ → Memory → Memory → Type 0
SameBut base n m m' = (a : ℕ) → (a < base) ⊎ (base + n ≤ a) → m a ≡ m' a

pub load32-SameBut :
    (base n a : ℕ) (m m' : Memory)
    → SameBut base n m m'
    → (a + 4 ≤ base) ⊎ (base + n ≤ a)
    → load32 m a ≡ load32 m' a
load32-SameBut base n a m m' same apart =
    load32-ext m m' a (same a (omega arith)) (same (a + 1) (omega arith))
      (same (a + 2) (omega arith)) (same (a + 3) (omega arith))

-- The processor's walk only reads an entry of the directory and one of a table.
pub walk-SameBut :
    (base n : ℕ) (m m' : Memory) (pd va : ℕ)
    → SameBut base n m' m
    → let e = entry_at pd (pd_index va) in
      let f = entry_at (table_of (load32 m e)) (pt_index va) in
      (e + 4 ≤ base) ⊎ (base + n ≤ e)
      → (f + 4 ≤ base) ⊎ (base + n ≤ f)
      → walk m' pd va ≡ walk m pd va
unfolding walk
walk-SameBut base n m m' pd va same dir table =
    let pde = load32-SameBut base n (entry_at pd (pd_index va)) m' m same dir in
    let pte =
      load32-SameBut base n
        (entry_at (table_of (load32 m (entry_at pd (pd_index va)))) (pt_index va)) m' m same
        table in
    rw (pde, pte) refl

module _ (pd dst src base size : ℕ) (m0 : Memory)
    (maps : (m : Memory)
      → SameBut base size m m0
      → (k : ℕ) → k < size
      → translate m pd (dst + k) ≡ some (base + k)) where
  copy_to_from_lem :
      (rounds i : ℕ) (m : Memory)
      → i + rounds ≤ size
      → SameBut base size m m0
      → copy_to_from pd dst src i rounds m ≡ some (copy_up_from m base src i rounds)
  unfolding copy_to_from copy_up_from
  copy_to_from_lem zero i m le same = refl
  copy_to_from_lem (suc rounds) i m le same =
      rw (maps m same i (omega arith), copy_to_from)
        (copy_to_from_lem rounds (i + 1) (store8 m (base + i) (m (src + i))) (omega arith)
          (λ a out. ground (arith, same a out)))

  -- Where the directory maps the destination to the `size` bytes from `base` on, whatever these
  -- bytes are, the copy is `memcpy` to `base`.
  pub copy_to-memcpy : copy_to pd dst src size m0 ≡ some (memcpy m0 base src size)
  unfolding copy_to memcpy
  copy_to-memcpy = copy_to_from_lem size 0 m0 (omega arith) (λ a out. refl)
