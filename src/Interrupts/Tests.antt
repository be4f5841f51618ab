-- ===== src/Interrupts/Tests.antt =====
-- A key pressed on a machine that runs no process, with hardware that always answers 0x20.
use lkd.Prelude.{List, ◌+◌, ◌∷◌, u32, ◌≡◌}
use lkd.Interrupts.Sequences.{Steps, timer_count, Steps-exist}
use lkd.Kernel.Sample.{ready, ready-Answers, line, line_room}
use lkd.Interrupts.Exceptions.{isr_handler}
use lkd.Interrupts.Reports.{Dispatched, isr_handler-Dispatched}
use lkd.Prelude.{ℕ, [], none, true, false, replicate, refl, arith}
use lkd.Serial.Sent.{Answers}
use lkd.Keyboard.Queue.{IsValid}
use lkd.Process.{InterruptState, zero_state}
use lkd.Interrupts.{Machine}

abbrev key_d : ℕ → ℕ → ℕ
key_d n port = 0x20

key_d-Answers : Answers key_d 1
key_d-Answers n = (0, omega arith, omega arith)

abbrev machine : Machine
machine = record {
  timer_init = true;
  ticks = 0;
  scheduler = record { init = false; processes = []; current = none; cr3 = 0 };
  keyboard = record { init = true; idx = 0; read = 0; column = 0; queue = replicate 256 0 };
  printer = record {
    device = record { init = false; ports = record { written = []; reads = 0 } };
    stack = [];
    stack_idx = 0;
  };
}

machine-IsValid : IsValid machine.keyboard
machine-IsValid = record {
  ready = refl;
  queue_size = refl;
  idx_in = omega arith;
  read_in = omega arith;
  column_in = omega arith;
}

abbrev key_pressed : InterruptState
key_pressed = record zero_state { interrupt_number = 1 }

-- The system call with the number 0.
abbrev system_call : InterruptState
system_call = record zero_state { interrupt_number = 0x80; ebx = 42 }

isr_handler-Dispatched_example :
    Dispatched ready 2 system_call line (isr_handler ready 2 system_call line)
isr_handler-Dispatched_example =
    isr_handler-Dispatched ready 2 system_call ready-Answers (omega arith) line line_room

-- A tick, a key, and a line that nothing handles.
abbrev three : List InterruptState
three = zero_state ∷ key_pressed ∷ record zero_state { interrupt_number = 9 } ∷ []

Steps-exist_example :
    (end : Machine) × Steps key_d 1 machine three end
    × IsValid end.keyboard
    × (u32 end.ticks ≡ u32 (0 + timer_count three))
Steps-exist_example = Steps-exist key_d 1 key_d-Answers three machine machine-IsValid
