-- ===== src/Keyboard/Modifiers.antt =====
-- The handler as a whole: modifier keys, the table of characters, and the queue.
use native.Mathlib.Decide.{ℕ_discrete, dec_lt}
use lkd.Prelude.{
  ℕ, ◌-◌, ◌≤◌, ◌<◌, List, [], ◌∷◌, ◌++◌, Option, some, true, ltb, not, ◌==◌, if◌then◌else◌, codes,
  ◌≡◌, ◌≢◌, refl, arith,
}
use lkd.Printing.{Printer}
use lkd.Printing.Plain.{kprintf-plain}
use lkd.Serial.{Serial}
use lkd.Serial
use lkd.Serial.Sent.{Answers, write_bytes-sends}
use lkd.Keyboard.{
  Keyboard, process_special, enqueue, keyboard_flush, receive, scancode_columns, special_keys,
  keyboard_queue_size,
}
use lkd.Keyboard.Queue.{IsValid, pending, enqueue_lem}

special_keys-lt : (key : ℕ) → special_keys key < 4
unfolding special_keys
special_keys-lt key = ground arith

-- The key that a scancode is about: the scancode of a release has 0x80 added.
abbrev pub key_of : ℕ → ℕ
key_of scancode = if ltb 0x80 scancode then scancode - 0x80 else scancode

-- What is pending after a scancode: a character key is appended in the column of the modifier that is
-- held, all that waited being dropped if the array is used up; no other key changes it.
abbrev pub typed : ℕ → Keyboard → List ℕ
typed scancode k =
    if special_keys (key_of scancode) == 0
    then (if ltb scancode 0x80
        then (if ltb k.idx keyboard_queue_size then pending k else [])
          ++ scancode_columns scancode k.column ∷ []
        else pending k)
    else pending k

-- The column after it: a modifier's own while it is held, the first one when any is released.
abbrev pub column_after : ℕ → Keyboard → ℕ
column_after scancode k =
    if special_keys (key_of scancode) == 0
    then k.column
    else if ltb 0x80 scancode
    then 0
    else special_keys scancode

-- `process_special` tells a modifier key from the others, and sets the column.
pub process_special_lem :
    (scancode : ℕ) (k : Keyboard)
    → process_special scancode k
      ≡ (not (special_keys (key_of scancode) == 0), record k { column = column_after scancode k })
unfolding process_special
process_special_lem scancode k = ground arith

module _ (input : ℕ → ℕ → ℕ) (fuel : ℕ) (answers : Answers input fuel) where
  keyboard_flush-some :
      (k : Keyboard) (p : Printer Serial)
      → (p' : Printer Serial) × (keyboard_flush input fuel k p
          ≡ some (record k { idx = 0; read = 0 }, p'))
  unfolding keyboard_flush
  keyboard_flush-some k p =
      let out =
        write_bytes-sends input fuel answers (codes "[KEYBOARD] Queue has been flushed!\n") p in
      (
        record p { device = out.0 },
        ground (
          arith,
          out.1,
          kprintf-plain (Serial.write_char input fuel) true
              (codes "[KEYBOARD] Queue has been flushed!\n") [] p refl,
        ),
      )

  module _ (scancode : ℕ) (k : Keyboard) (p : Printer Serial) where
    abbrev held : Keyboard
    held = record k { column = column_after scancode k }

    receive-modifier :
        special_keys (key_of scancode) ≢ 0 → receive input fuel scancode k p ≡ some (held, p)
    unfolding receive
    receive-modifier special = rw (process_special_lem scancode k) (ground arith)

    receive-release :
        special_keys (key_of scancode) ≡ 0
        → 0x80 ≤ scancode
        → receive input fuel scancode k p ≡ some (held, p)
    unfolding receive
    receive-release plain up = rw (process_special_lem scancode k) (ground arith)

    receive-room :
        special_keys (key_of scancode) ≡ 0
        → scancode < 0x80
        → k.idx < keyboard_queue_size
        → receive input fuel scancode k p
          ≡ some (enqueue (scancode_columns scancode held.column) held, p)
    unfolding receive
    receive-room plain down room = rw (process_special_lem scancode k) (ground arith)

    receive-full :
        special_keys (key_of scancode) ≡ 0
        → scancode < 0x80
        → keyboard_queue_size ≤ k.idx
        → {flushed : Keyboard} {p' : Printer Serial}
        → keyboard_flush input fuel held p ≡ some (flushed, p')
        → receive input fuel scancode k p
          ≡ some (enqueue (scancode_columns scancode flushed.column) flushed, p')
    unfolding receive
    receive-full plain down full e = rw (process_special_lem scancode k) (ground arith)

    held-IsValid : IsValid k → IsValid held
    held-IsValid v = ground (arith, special_keys-lt scancode)

    -- What the handler leaves behind.
    abbrev pub Received : Option (Keyboard × Printer Serial) → Type 0
    Received r =
        (k' : Keyboard) × (p' : Printer Serial) × (r ≡ some (k', p'))
        × IsValid k'
        × (pending k' ≡ typed scancode k)
        × (k'.column ≡ column_after scancode k)

    -- With a serial line that answers and a valid keyboard, whatever the scancode, the handler
    -- ends and keeps the keyboard valid. What is pending then is what `typed` says, and the
    -- column is what `column_after` says.
    pub receive-Received : IsValid k → Received (receive input fuel scancode k p)
    receive-Received v = elim (ℕ_discrete (special_keys (key_of scancode)) 0) [
      | no special ↦ (held, p, receive-modifier special, held-IsValid v, ground arith, refl)
      | yes plain ↦ elim (dec_lt scancode 0x80) [
        | no up ↦ (held, p, receive-release plain (omega arith), held-IsValid v, ground arith, refl)
        | yes down ↦ elim (dec_lt k.idx keyboard_queue_size) [
          | yes room ↦
              let ch = scancode_columns scancode held.column in
              let out = enqueue_lem held (held-IsValid v) ch room in
              let column : (enqueue ch held).column ≡ held.column = unfold enqueue in refl in
              (
                enqueue ch held,
                p,
                receive-room plain down room,
                out.0,
                ground (arith, out.1),
                column,
              )
          | no full ↦
              let flushed : Keyboard = record held { idx = 0; read = 0 } in
              let printed = keyboard_flush-some held p in
              let ch = scancode_columns scancode held.column in
              let valid : IsValid flushed = ground (arith, held-IsValid v) in
              let out = enqueue_lem flushed valid ch (omega arith) in
              let column : (enqueue ch flushed).column ≡ held.column = unfold enqueue in refl in
              (
                enqueue ch flushed,
                printed.0,
                receive-full plain down (omega arith) printed.1,
                out.0,
                ground (arith, out.1),
                column,
              )
        ]
      ]
    ]
