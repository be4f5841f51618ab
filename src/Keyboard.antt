-- ===== src/Keyboard.antt =====
-- `keyboard::Keyboard` of src/devices/keyboard.cpp: the static members are the fields. The handler
-- reads the scancode from the port, and `keyboard_flush` prints on the serial line, so they run in
-- the serial printer's monad.
mod Scancodes
pub mod Queue
pub mod Modifiers
mod Tests
unfoldable pub use Scancodes.{scancode_columns, special_keys}
pub use Scancodes.{lshift, rshift, ctrl, alt}
use lkd.Prelude.{
  ℕ, ◌+◌, ◌-◌, ◌%◌, ◌^◌, List, Option, some, none, Bool, true, false, ltb, leb, ◌==◌, not,
  if◌then◌else◌, get_or, set, replicate, u8, u32, codes,
}
use lkd.Ports.{Ports, inb}
use lkd.Printing.{Printer, M, pure, ◌>>=◌, ◌>>◌}
use lkd.Serial
use lkd.Serial.{Serial}

abbrev pub keyboard_data_port : ℕ
keyboard_data_port = 0x60

abbrev pub keyboard_queue_size : ℕ
keyboard_queue_size = 256

pub record Keyboard : Type 0 where
  pub init : Bool
  pub idx : ℕ
  pub read : ℕ
  pub column : ℕ
  pub queue : List ℕ

-- The constructor: only the first one resets.
unfoldable pub keyboard : Keyboard → Keyboard
keyboard k = if k.init then k else record {
  init = true;
  idx = 0;
  read = 0;
  column = 0;
  queue = replicate keyboard_queue_size 0;
}

unfoldable pub process_special : ℕ → Keyboard → Bool × Keyboard
process_special scancode k =
    let clear = ltb 0x80 scancode in
    let key = if clear then scancode - 0x80 else scancode in
    let special = special_keys key in
    if special == 0
    then (false, k)
    else if clear
    then (true, record k { column = 0 })
    else (true, record k { column = special })

-- `Keyboard::_queue[Keyboard::_idx++] = ch`
unfoldable pub enqueue : ℕ → Keyboard → Keyboard
enqueue ch k = record k { queue = set k.queue k.idx ch; idx = u32 (k.idx + 1) }

module _ (input : ℕ → ℕ → ℕ) (fuel : ℕ) where
  unfoldable pub keyboard_flush : Keyboard → M Serial Keyboard
  keyboard_flush k =
      Serial.kprintf input fuel (codes "[KEYBOARD] Queue has been flushed!\n") List.[]
      >> pure (record k { idx = 0; read = 0 })

  -- The handler behind its read of the port.
  unfoldable pub receive : ℕ → Keyboard → M Serial Keyboard
  receive scancode k p =
      let (special, k') = process_special scancode k in
      if special
      then some (k', p)
      else if ltb scancode 0x80
      then elim (if leb keyboard_queue_size k'.idx then keyboard_flush k' p else some (k', p)) [
        | none ↦ none
        | some (r, p') ↦ some (enqueue (scancode_columns scancode r.column) r, p')
      ]
      else some (k', p)

  unfoldable pub keyboard_interrupt_handler : Keyboard → M Serial Keyboard
  keyboard_interrupt_handler k p =
      let (scancode, io) = inb input keyboard_data_port p.device.ports in
      if k.init
      then receive scancode k (record p { device = record (p.device) { ports = io } })
      else some (k, p)

-- `getchar`; `none` means that it waits, since nothing is there to read.
unfoldable pub getchar : Keyboard → Option (ℕ × Keyboard)
getchar k =
    if k.read == k.idx
    then none
    else some (get_or k.queue k.read 0, record k { read = u32 (k.read + 1) })
