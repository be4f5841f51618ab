-- ===== src/Memory.antt =====
-- The kernel's memory as bytes at linear addresses, 32-bit words in it (little-endian), and the
-- two address conversions of src/includes/utils.hpp. An access is at the address that the code
-- computes; the bytes of an address that nothing wrote keep the value that they had.
pub mod Laws
pub mod Address
use lkd.Prelude.{ℕ, ◌+◌, ◌*◌, ◌/◌, ◌%◌, ◌^◌, ◌<◌, bit_and, bit_or, ◌==◌, if◌then◌else◌, complement}

abbrev pub Memory : Type 0
Memory = ℕ → ℕ

abbrev pub store8 : Memory → ℕ → ℕ → Memory
store8 m a v b = if a == b then v else m b

-- A `uint32_t` read and written through a pointer.
unfoldable pub load32 : Memory → ℕ → ℕ
load32 m a = m a + m (a + 1) * 2 ^ 8 + m (a + 2) * 2 ^ 16 + m (a + 3) * 2 ^ 24

unfoldable pub store32 : Memory → ℕ → ℕ → Memory
store32 m a v =
    store8
      (store8 (store8 (store8 m a (v % 256)) (a + 1) (v / 2 ^ 8 % 256)) (a + 2) (v / 2 ^ 16 % 256))
      (a + 3) (v / 2 ^ 24 % 256)

-- Every cell holds a byte.
abbrev pub IsBytes : Memory → Type 0
IsBytes m = (a : ℕ) → m a < 256

abbrev pub kernel_offset : ℕ
kernel_offset = 0xC0000000

-- `V2P(a)`
unfoldable pub v2p : ℕ → ℕ
v2p a = bit_and a (complement kernel_offset)

-- `P2V(a)`
unfoldable pub p2v : ℕ → ℕ
p2v a = bit_or a kernel_offset
