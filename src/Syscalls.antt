-- ===== src/Syscalls.antt =====
-- src/userland/syscalls.cpp: the table of system calls, and the call by the number in `eax`.
use lkd.Prelude.{ℕ, List, [], ◌∷◌, none, some, get_elem?, get_or, codes}
use lkd.Printing.{M, pure, fault, ◌>>=◌, ◌>>◌, word}
use lkd.Serial
use lkd.Serial.{Serial}
use lkd.Process.{InterruptState}

-- The five words that the call pushes, as the callee finds them: its arguments, the first one first.
abbrev pub pushed : InterruptState → List ℕ
pushed state = state.ebx ∷ state.ecx ∷ state.edx ∷ state.esi ∷ state.edi ∷ []

module _ (input : ℕ → ℕ → ℕ) (fuel : ℕ) where
  unfoldable pub syscall_test : ℕ → M Serial ℕ
  syscall_test val =
      Serial.kprintf input fuel (codes "[DUMMY SYSCALL] Arg: %d.\n") (word val ∷ []) >> pure 0

  -- A call of an entry with what was pushed.
  abbrev pub syscalls_buffer : List (List ℕ → M Serial ℕ)
  syscalls_buffer = (λ args. syscall_test (get_or args 0 0)) ∷ []

  -- The index is not checked: what stands behind the table is called, which is a fault here.
  unfoldable pub syscall_handler : InterruptState → M Serial InterruptState
  syscall_handler state = elim (get_elem? syscalls_buffer state.eax) [
    | none ↦ fault
    | some syscall_ptr ↦
        syscall_ptr (pushed state) >>= λ ret_value. pure (record state { eax = ret_value })
  ]
