-- ===== src/Interrupts/Exceptions.antt =====
-- `isr_handler` of src/interrupts/handlers.cpp: the exceptions of the processor, and the interrupt
-- 0x80 of the system calls.
use lkd.Prelude.{ℕ, List, [], ◌∷◌, ◌==◌, if◌then◌else◌, codes}
use lkd.Printing.{M, pure, ◌>>=◌, ◌>>◌, word}
use lkd.Serial
use lkd.Serial.{Serial}
use lkd.Process.{InterruptState}
use lkd.Syscalls.{syscall_handler}

-- The handler returns to the state, or it loops for ever.
pub data Outcome : Type 0 where
  returns : InterruptState → Outcome
  hangs : Outcome

module _ (input : ℕ → ℕ → ℕ) (fuel : ℕ) where
  -- The report of a fault, and `for (;;)`.
  unfoldable pub report : List ℕ → InterruptState → M Serial Outcome
  report title state =
      Serial.kprintf input fuel title []
      >> Serial.kprintf input fuel (codes "[ERROR] %%eip = %x\n") (word state.eip ∷ [])
      >> Serial.kprintf input fuel (codes "[ERROR] %%ebp = %x\n") (word state.ebp ∷ [])
      >> pure hangs

  unfoldable pub isr_handler : InterruptState → M Serial Outcome
  isr_handler state =
      let int_num = state.interrupt_number in
      if int_num == 0x80
      then (Serial.kprintf input fuel (codes "[SYSCALLS] Triggerring a syscall, %%eax = %d\n")
            (word state.eax ∷ [])
          >> syscall_handler input fuel state
          >>= λ state'. pure (returns state'))
      else if int_num == 13
      then report (codes "[ERROR] General Protection fault\n") state
      else if int_num == 14
      then report (codes "[ERROR] Page fault\n") state
      else pure (returns state)
