-- ===== src/Memory/Address.antt =====
-- The direct map: a physical address below 1 GiB and its address in the kernel's half.
use lkd.Prelude.{ℕ, ◌+◌, ◌%◌, ◌^◌, ◌<◌, ◌≡◌, arith}
use lkd.Bits.Fields.{bit_and-low, bit_or-low_high}
use lkd.Memory.{v2p, p2v, kernel_offset}

pub v2p_lem : (a : ℕ) → v2p a ≡ a % 2 ^ 30
unfolding v2p
v2p_lem a = bit_and-low 30 a

pub p2v_lem : (a : ℕ) → a < 2 ^ 30 → p2v a ≡ kernel_offset + a
unfolding p2v
p2v_lem a h = bit_or-low_high 30 3 a h

pub v2p-p2v : (a : ℕ) → a < 2 ^ 30 → v2p (p2v a) ≡ a
v2p-p2v a h = omega (arith, v2p_lem (p2v a), p2v_lem a h)
