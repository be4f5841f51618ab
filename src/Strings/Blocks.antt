-- ===== src/Strings/Blocks.antt =====
-- `memcpy`, `memmove` and `memset`, byte by byte.
use lkd.Prelude.{
  ℕ, zero, suc, ◌+◌, ◌-◌, ◌≤◌, leb, ltb, ◌&&◌, if◌then◌else◌, u8, ◌≡◌, ◌⊎◌, refl, true, leb→le,
  arith,
}
use lkd.Memory.{Memory, store8}
use lkd.Strings.{copy_up_from, copy_down_from, memcpy, memset_from, memset, memmove}

-- The bytes of `m` with those from `src` on written over the `n` bytes from `dst` on.
abbrev pub copied : Memory → ℕ → ℕ → ℕ → Memory
copied m dst src n a = if leb dst a && ltb a (dst + n) then m (src + (a - dst)) else m a

copy_up_from_lem :
    (m : Memory) (dst src i n a : ℕ)
    → (dst ≤ src) ⊎ (src + (i + n) ≤ dst)
    → copy_up_from m dst src i n a ≡ copied m (dst + i) (src + i) n a
unfolding copy_up_from
copy_up_from_lem m dst src i zero a h = ground arith
copy_up_from_lem m dst src i (suc n) a h =
    let next : leb (dst + i + 1) a ≡ true
        → src + (i + 1) + (a - (dst + (i + 1))) ≡ src + i + (a - (dst + i)) =
      λ e. omega (arith, leb→le _ _ e) in
    ground (
      arith,
      next,
      copy_up_from_lem (store8 m (dst + i) (m (src + i))) dst src (i + 1) n a (omega arith),
    )

copy_down_from_lem :
    (m : Memory) (dst src n a : ℕ) → src ≤ dst → copy_down_from m dst src n a ≡ copied m dst src n a
unfolding copy_down_from
copy_down_from_lem m dst src zero a h = ground arith
copy_down_from_lem m dst src (suc n) a h =
    ground (arith, copy_down_from_lem (store8 m (dst + n) (m (src + n))) dst src n a)

memset_from_lem :
    (m : Memory) (dst val i n a : ℕ)
    → memset_from m dst val i n a ≡ (if leb (dst + i) a && ltb a (dst + i + n) then u8 val else m a)
unfolding memset_from
memset_from_lem m dst val i zero a = ground arith
memset_from_lem m dst val i (suc n) a =
    ground (arith, memset_from_lem (store8 m (dst + i) (u8 val)) dst val (i + 1) n a)

-- `memcpy` copies the source's bytes as they were, where the destination does not start inside the
-- source behind its first byte, and changes no other byte.
pub memcpy_lem :
    (m : Memory) (dst src n a : ℕ)
    → (dst ≤ src) ⊎ (src + n ≤ dst)
    → memcpy m dst src n a ≡ copied m dst src n a
unfolding memcpy
memcpy_lem m dst src n a h = ground (arith, copy_up_from_lem m dst src 0 n a)

-- `memmove` copies the source's bytes as they were, however the two blocks overlap, changes no other
-- byte and returns the destination.
pub memmove_lem :
    (m : Memory) (dst src n : ℕ)
    → ((memmove m dst src n).0 ≡ dst) × ((a : ℕ) → (memmove m dst src n).1 a ≡ copied m dst src n a)
unfolding memmove
memmove_lem m dst src n =
    (refl, λ a. ground (arith, copy_up_from_lem m dst src 0 n a, copy_down_from_lem m dst src n a))

-- `memset` writes the byte over the block and changes no other.
pub memset_lem :
    (m : Memory) (dst val n a : ℕ)
    → memset m dst val n a ≡ (if leb dst a && ltb a (dst + n) then u8 val else m a)
unfolding memset
memset_lem m dst val n a = ground (arith, memset_from_lem m dst val 0 n a)
