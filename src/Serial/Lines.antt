-- ===== src/Serial/Lines.antt =====
-- Whole lines on the serial line: `kprintf` and `write_str` end, and their text goes out.
use lkd.Prelude.{ℕ, List, Option, some, true, length, ◌++◌, ◌≡◌, arith}
use lkd.Printing.{Printer, M, Arg}
use lkd.Printing.Render.{HasRoom, Writes, write_bytes_lem}
use lkd.Printing.Conversions.{rendered}
use lkd.Printing.Rendered.{kprintf-Writes}
use lkd.Printing.Fits.{fits, fits-HasText}
use lkd.Serial.{Serial, write_char, write_str, kprintf}
use lkd.Serial.Sent.{Answers, sent, write_bytes-sends, write_str-sends}

module _ (input : ℕ → ℕ → ℕ) (fuel : ℕ) where
  -- The printers' stack has room for the digits of a number.
  abbrev pub CanPrint : Printer Serial → Type 0
  CanPrint p = HasRoom (write_char input fuel) p

  -- The call ends, with the same result as always, and sends the text.
  pub record Printed {A : Type 0} (cs : List ℕ) (a : A) (p : Printer Serial)
      (result : Option (A × Printer Serial)) : Type 0 where
    pub printer : Printer Serial
    pub ends : result ≡ some (a, printer)
    pub room : CanPrint printer
    pub sends : printer.device.ports.written ≡ p.device.ports.written ++ sent p.device.init cs

  module _ (answers : Answers input fuel) (p : Printer Serial) (room : CanPrint p) where
    -- A call that writes a text sends it.
    pub Writes-Printed :
        (m : M Serial (Unit {0})) (cs : List ℕ)
        → Writes (write_char input fuel) cs m
        → Printed cs tt p (m p)
    Writes-Printed m cs writes =
        let (st, len, wrote) = writes p room in
        let q : Printer Serial = record p { stack = st } in
        let (d, out, written) = write_bytes-sends input fuel answers cs q in
        record {
          printer = record q { device = d };
          ends = ground (arith, wrote, out, write_bytes_lem (write_char input fuel) cs q);
          room = (room.0, len);
          sends = written;
        }

    pub kprintf-Printed :
        (fmt : List ℕ) (args : List Arg) (cs : List ℕ)
        → rendered true fmt args ≡ some cs
        → Printed cs tt p (kprintf input fuel fmt args p)
    kprintf-Printed fmt args cs e =
        Writes-Printed (kprintf input fuel fmt args) cs
          (kprintf-Writes (write_char input fuel) true fmt args cs e)

    -- On a serial line that answers, with room on the stack for the digits of a number, `kprintf`
    -- of arguments that fit the format ends and sends the text that they come to.
    pub kprintf-fits :
        (fmt : List ℕ) (args : List Arg)
        → fits true fmt args ≡ true
        → (cs : List ℕ) × (rendered true fmt args ≡ some cs)
          × Printed cs tt p (kprintf input fuel fmt args p)
    kprintf-fits fmt args fit =
        let (cs, e) = fits-HasText true fmt args fit in (cs, e, kprintf-Printed fmt args cs e)

    pub write_str-Printed : (cs : List ℕ) → Printed cs (length cs) p (write_str input fuel cs p)
    write_str-Printed cs =
        let (d, out, written) = write_str-sends input fuel answers cs p in
        record { printer = record p { device = d }; ends = out; room = room; sends = written }
