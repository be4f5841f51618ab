-- ===== src/Interrupts/Sequences.antt =====
-- Any sequence of interrupts on the lines of the controllers, as steps of `irq_handler`.
use lkd.Prelude.{ℕ, ◌+◌, List, [], ◌∷◌, some, ◌==◌, if◌then◌else◌, u32, ◌≡◌, ap, arith}
use lkd.Serial.Sent.{Answers}
use lkd.Keyboard.Queue.{IsValid}
use lkd.Process.{InterruptState}
use lkd.Interrupts.{Machine, irq_handler}
use lkd.Interrupts.Lines.{irq_handler-Handled}

-- How many of the interrupts are the timer's.
abbrev pub timer_count : List InterruptState → ℕ
timer_count [] = 0
timer_count (state ∷ states) =
    if state.interrupt_number == 0 then timer_count states + 1 else timer_count states

module _ (input : ℕ → ℕ → ℕ) (fuel : ℕ) where
  -- The machine behind a sequence of interrupts, each handled to its end.
  pub data Steps : Machine → List InterruptState → Machine → Type 0 where
    done : {m : Machine} → Steps m [] m
    step :
        {m m' end : Machine} {state : InterruptState} {states : List InterruptState}
        (out : InterruptState)
        → irq_handler input fuel state m ≡ some (out, m')
        → Steps m' states end
        → Steps m (state ∷ states) end

  -- On a serial line that answers and with a valid keyboard, every sequence of interrupts is handled
  -- to its end: the keyboard stays valid, and the ticks go up by the number of the timer's
  -- interrupts, on 32 bits.
  pub Steps-exist :
      Answers input fuel
      → (states : List InterruptState) (m : Machine) → IsValid m.keyboard
      → (end : Machine) × Steps m states end
        × IsValid end.keyboard
        × (u32 end.ticks ≡ u32 (m.ticks + timer_count states))
  Steps-exist answers [] m v = (m, done, v, ap u32 (omega arith))
  Steps-exist answers (state ∷ states) m v =
      let (out, m', handled, ticked, scheduled, v', typed, master, slave) =
        irq_handler-Handled input fuel answers state m v in
      let (end, steps, v'', ticks) = Steps-exist answers states m' v' in
      (end, step out handled steps, v'', ground (arith, ticked, ticks))
