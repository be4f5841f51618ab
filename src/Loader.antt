-- ===== src/Loader.antt =====
-- `Elf32::verify_header` of src/loader/loader.cpp. `load` is in Loader/Load.
pub mod Header
pub mod Load
pub mod Segment
pub mod Refused
mod Tests
use lkd.Prelude.{ℕ, ◌+◌, Bool, true, false, ◌==◌, if◌then◌else◌}
use lkd.Prelude.Int.{ℤ, pos, negsuc}
use lkd.Memory.{Memory, store8}
use lkd.Strings.{memcmp}

-- An `int` as a condition, negated.
unfoldable pub is_zero : ℤ → Bool
is_zero (pos n) = n == 0
is_zero (negsuc n) = false

-- The local array `elf_magic`, at its address on the stack.
unfoldable pub elf_magic : Memory → ℕ → Memory
elf_magic m local =
    store8 (store8 (store8 (store8 m local 0x7F) (local + 1) b'E') (local + 2) b'L') (local + 3)
      b'F'

-- The header's `e_ident` is at its start.
unfoldable pub verify_header : Memory → ℕ → ℕ → Bool
verify_header m elf local = is_zero (memcmp (elf_magic m local) elf local 4)
