-- ===== src/Serial/Sent.antt =====
-- What goes out on COM1: each character once and in order, behind the initialisation.
use mathlib.Core.List.{append_assoc, append-nil}
use lkd.Prelude.{
  ℕ, zero, suc, ◌+◌, ◌-◌, ◌<◌, List, [], ◌∷◌, ◌++◌, map, some, Bool, true, false, if◌then◌else◌,
  bit_and, u8, length, ◌≡◌, ◌≢◌, refl, ap, ◌∙◌, sym, arith,
}
use native.Mathlib.Decide.{ℕ_discrete}
use lkd.Ports.{Ports, outb, inb}
use lkd.Printing
use lkd.Printing.{Printer, put}
use lkd.Serial.{com1, Serial, init_serial, is_transmit_empty, wait_transmit, write_char, write_str}

-- The writes of the initialisation, in the order of the UART's registers.
abbrev pub set_up : List (ℕ × ℕ)
set_up =
    (com1 + 1, 0x00)
    ∷ (com1 + 3, 0x80)
    ∷ (com1 + 0, 0x03)
    ∷ (com1 + 1, 0x00)
    ∷ (com1 + 3, 0x03)
    ∷ (com1 + 2, 0xC7)
    ∷ (com1 + 4, 0x0B)
    ∷ (com1 + 4, 0x1E)
    ∷ (com1 + 0, 0xAE)
    ∷ (com1 + 4, 0x0F)
    ∷ []

-- The port writes for a string: the initialisation first, if it is still to be done.
abbrev pub sent : Bool → List ℕ → List (ℕ × ℕ)
sent init [] = []
sent init (ch ∷ cs) = (if init then [] else set_up) ++ (com1, u8 ch) ∷ map (λ c. (com1, u8 c)) cs

written-init_serial : (io : Ports) → (init_serial io).written ≡ io.written ++ set_up
unfolding init_serial outb
written-init_serial io = simp append_assoc

abbrev started : Bool → Ports → Ports
started init io = if init then io else init_serial io

written-started :
    (init : Bool) (io : Ports)
    → (started init io).written ≡ io.written ++ (if init then [] else set_up)
written-started true io = sym (append-nil io.written)
written-started false io = written-init_serial io

sent_later : (cs : List ℕ) → sent true cs ≡ map (λ c. (com1, u8 c)) cs
sent_later [] = refl
sent_later (c ∷ cs) = refl

sent-cons :
    (init : Bool) (c : ℕ) (cs : List ℕ) → sent init (c ∷ cs) ≡ sent init (c ∷ []) ++ sent true cs
sent-cons true c cs = rw (sent_later cs)
sent-cons false c cs = rw (sent_later cs)

module _ (input : ℕ → ℕ → ℕ) (fuel : ℕ) where
  -- From any read on, the line reports within `fuel` polls that it can take a character.
  abbrev pub Answers : Type 0
  Answers = (n : ℕ) → (k : ℕ) × (k < fuel) × (bit_and (u8 (input (n + k) (com1 + 5))) 0x20 ≢ 0)

  wait_transmit-some :
      (polls k : ℕ) (io : Ports)
      → k < polls
      → bit_and (u8 (input (io.reads + k) (com1 + 5))) 0x20 ≢ 0
      → (io' : Ports) × (wait_transmit input fuel polls io ≡ some io') × (io'.written ≡ io.written)
  unfolding wait_transmit is_transmit_empty inb
  wait_transmit-some zero k io h ready = absurd (omega arith)
  wait_transmit-some (suc polls) k io h ready =
      elim (ℕ_discrete (bit_and (u8 (input io.reads (com1 + 5))) 0x20) 0) [
        | no free ↦ (record io { reads = io.reads + 1 }, ground arith, refl)
        | yes busy ↦
            let later : k ≢ 0 =
              λ z. ready (ap (λ n. bit_and (u8 (input n (com1 + 5))) 0x20) (omega arith) ∙ busy) in
            let same_read : io.reads + k ≡ io.reads + 1 + (k - 1) = omega arith in
            let rest =
              wait_transmit-some polls (k - 1) (record io { reads = io.reads + 1 }) (omega arith)
                (λ e. ready (ap (λ n. bit_and (u8 (input n (com1 + 5))) 0x20) same_read ∙ e)) in
            (rest.0, ground (arith, rest.1), rest.2)
      ]

  module _ (answers : Answers) where
    write_char-sends :
        (ch : ℕ) (s : Serial)
        → (io : Ports) × (write_char input fuel ch s ≡ some (record { init = true; ports = io }))
          × (io.written ≡ s.ports.written ++ sent s.init (ch ∷ []))
    unfolding write_char outb
    write_char-sends ch s =
        let io = started s.init s.ports in
        let answer = answers io.reads in
        let ready = wait_transmit-some fuel answer.0 io answer.1 answer.2 in
        (
          outb com1 ch ready.0,
          rw (ready.1, write_char) refl,
          ap (λ (w : List (ℕ × ℕ)). w ++ (com1, u8 ch) ∷ [])
                (ready.2 ∙ written-started s.init s.ports)
              ∙ append_assoc s.ports.written (if s.init then [] else set_up) ((com1, u8 ch) ∷ []),
        )

    pub write_bytes-sends :
        (cs : List ℕ) (p : Printer Serial)
        → (d : Serial) × (Printing.write_bytes (write_char input fuel) cs p
            ≡ some (tt, record p { device = d }))
          × (d.ports.written ≡ p.device.ports.written ++ sent p.device.init cs)
    unfolding Printing.write_bytes
    write_bytes-sends [] p = (p.device, refl, sym (append-nil p.device.ports.written))
    write_bytes-sends (c ∷ cs) p =
        let first = write_char-sends c p.device in
        let rest =
          write_bytes-sends cs (record p { device = record { init = true; ports = first.0 } }) in
        (
          rest.0,
          ground (arith, first.1, rest.1),
          rest.2
              ∙ ap (λ (w : List (ℕ × ℕ)). w ++ sent true cs) first.2
              ∙ append_assoc p.device.ports.written (sent p.device.init (c ∷ [])) (sent true cs)
              ∙ ap (λ (w : List (ℕ × ℕ)). p.device.ports.written ++ w)
                  (sym (sent-cons p.device.init c cs)),
        )

    -- Where the line answers within the fuel, `write_str` returns the string's length; on the
    -- port go the initialisation, if it was still to be done and the string is not empty, and
    -- then each character once and in order.
    pub write_str-sends :
        (cs : List ℕ) (p : Printer Serial)
        → (d : Serial) × (write_str input fuel cs p ≡ some (length cs, record p { device = d }))
          × (d.ports.written ≡ p.device.ports.written ++ sent p.device.init cs)
    unfolding Printing.write_str
    write_str-sends cs p = let out = write_bytes-sends cs p in (out.0, ground (arith, out.1), out.2)
