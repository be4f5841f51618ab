-- ===== src/Keyboard/Tests.antt =====
-- Keys on a keyboard whose controller always answers 0x20, the key `d`.
use lkd.Prelude.{ℕ, [], ◌∷◌, some, true, false, replicate, ◌≡◌, refl, arith}
use lkd.Ports.{inb}
use lkd.Printing.{Printer}
use lkd.Serial.{Serial}
use lkd.Serial.Sent.{Answers}
use lkd.Keyboard.{
  Keyboard, process_special, enqueue, receive, keyboard_interrupt_handler, scancode_columns,
  special_keys,
}
use lkd.Keyboard.Queue.{IsValid, pending}
use lkd.Keyboard.Modifiers.{Received, receive-Received}

abbrev always_d : ℕ → ℕ → ℕ
always_d n port = 0x20

abbrev off : Keyboard
off = record { init = false; idx = 0; read = 0; column = 0; queue = [] }

abbrev line : Printer Serial
line = record {
  device = record { init = false; ports = record { written = []; reads = 0 } };
  stack = [];
  stack_idx = 0;
}

always_d-Answers : Answers always_d 1
always_d-Answers n = (0, omega arith, omega arith)

abbrev fresh : Keyboard
fresh = record { init = true; idx = 0; read = 0; column = 0; queue = replicate 256 0 }

fresh-IsValid : IsValid fresh
fresh-IsValid = record {
  ready = refl;
  queue_size = refl;
  idx_in = omega arith;
  read_in = omega arith;
  column_in = omega arith;
}

types_d :
    (k : Keyboard) × (p : Printer Serial) × (keyboard_interrupt_handler always_d 1 fresh line
      ≡ some (k, p))
    × (pending k ≡ b'd' ∷ [])
unfolding keyboard_interrupt_handler receive process_special enqueue scancode_columns special_keys
    inb
types_d = (_, _, refl, refl)

shift_columns : scancode_columns 0x20 1 ≡ b'D'
unfolding scancode_columns
shift_columns = refl

receive-Received_example :
    Received always_d 1 always_d-Answers 0x20 fresh line (receive always_d 1 0x20 fresh line)
receive-Received_example =
    receive-Received always_d 1 always_d-Answers 0x20 fresh line fresh-IsValid
