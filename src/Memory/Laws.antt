-- ===== src/Memory/Laws.antt =====
-- Reading back words that were written, and what a write leaves alone.
use lkd.Prelude.{ℕ, ◌+◌, ◌^◌, ◌≤◌, ◌<◌, ◌≡◌, ◌⊎◌, arith}
use lkd.Memory.{Memory, store8, load32, store32, IsBytes}

pub load32-store32_self : (m : Memory) (a v : ℕ) → v < 2 ^ 32 → load32 (store32 m a v) a ≡ v
unfolding load32 store32
load32-store32_self m a v h = ground arith

-- The four bytes of a write are the only ones that it changes.
pub store32-outside : (m : Memory) (a v b : ℕ) → (b < a) ⊎ (a + 4 ≤ b) → store32 m a v b ≡ m b
unfolding store32
store32-outside m a v b h = ground arith

pub load32-ext :
    (m n : Memory) (a : ℕ)
    → m a ≡ n a
    → m (a + 1) ≡ n (a + 1)
    → m (a + 2) ≡ n (a + 2)
    → m (a + 3) ≡ n (a + 3)
    → load32 m a ≡ load32 n a
unfolding load32
load32-ext m n a e0 e1 e2 e3 = rw (e0, e1, e2, e3)

pub load32-store32_apart :
    (m : Memory) (a v b : ℕ) → (b + 4 ≤ a) ⊎ (a + 4 ≤ b) → load32 (store32 m a v) b ≡ load32 m b
load32-store32_apart m a v b h =
    load32-ext (store32 m a v) m b (store32-outside m a v b (omega arith))
      (store32-outside m a v (b + 1) (omega arith)) (store32-outside m a v (b + 2) (omega arith))
      (store32-outside m a v (b + 3) (omega arith))

pub load32-lt : (m : Memory) (a : ℕ) → IsBytes m → load32 m a < 2 ^ 32
unfolding load32
load32-lt m a h = omega (arith, h a, h (a + 1), h (a + 2), h (a + 3))

pub store8-IsBytes : {m : Memory} (a v : ℕ) → IsBytes m → v < 256 → IsBytes (store8 m a v)
store8-IsBytes a v h lt b = ground (arith, h b)

pub store32-IsBytes : {m : Memory} (a v : ℕ) → IsBytes m → IsBytes (store32 m a v)
unfolding store32
store32-IsBytes a v h b = ground (arith, h b)
