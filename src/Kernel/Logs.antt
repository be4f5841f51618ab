-- ===== src/Kernel/Logs.antt =====
-- A log line changes the serial line only, and its text goes out on it.
use lkd.Prelude.{ℕ, List, Option, some, true, ◌++◌, ◌≡◌, arith}
use lkd.Printing.{Printer, Arg}
use lkd.Printing.Render.{HasRoom, write_bytes_lem}
use lkd.Printing.Fits.{fits, fits-HasText}
use lkd.Printing.Conversions.{rendered}
use lkd.Printing.Rendered.{kprintf-Writes}
use lkd.Serial
use lkd.Serial.{Serial}
use lkd.Serial.Sent.{Answers, sent, write_bytes-sends, write_str-sends}
use lkd.Kernel.{Kernel, K, ◌>>=◌, log, log_str}

module _ (input : ℕ → ℕ → ℕ) (fuel : ℕ) where
  -- The printers' stack has room for the digits of a number.
  abbrev pub CanLog : Kernel → Type 0
  CanLog k = HasRoom (Serial.write_char input fuel) k.serial

  -- The call ends, changes nothing but the serial line, and sends the text on it.
  pub record Logged (cs : List ℕ) (k : Kernel) (result : Option (Unit {0} × Kernel)) : Type 0 where
    pub printer : Printer Serial
    pub ends : result ≡ some (tt, record k { serial = printer })
    pub room : HasRoom (Serial.write_char input fuel) printer
    pub sends :
        printer.device.ports.written ≡ k.serial.device.ports.written ++ sent k.serial.device.init cs

  module _ (answers : Answers input fuel) (k : Kernel) (room : CanLog k) where
    pub log-Logged :
        (fmt : List ℕ) (args : List Arg) (cs : List ℕ)
        → rendered true fmt args ≡ some cs
        → Logged cs k (log input fuel fmt args k)
    log-Logged fmt args cs e =
        let (st, len, wrote) =
          kprintf-Writes (Serial.write_char input fuel) true fmt args cs e k.serial room in
        let p : Printer Serial = record (k.serial) { stack = st } in
        let (d, out, written) = write_bytes-sends input fuel answers cs p in
        record {
          printer = record p { device = d };
          ends = ground (arith, wrote, out, write_bytes_lem (Serial.write_char input fuel) cs p);
          room = (room.0, len);
          sends = written;
        }

    pub log_str-Logged : (cs : List ℕ) → Logged cs k (log_str input fuel cs k)
    log_str-Logged cs =
        let (d, out, written) = write_str-sends input fuel answers cs k.serial in
        record {
          printer = record (k.serial) { device = d };
          ends = ground (arith, out);
          room = room;
          sends = written;
        }

    -- The call ends, and changes nothing but the serial line.
    abbrev pub Ends : Option (Unit {0} × Kernel) → Type 0
    Ends result =
        (p : Printer Serial) × (result ≡ some (tt, record k { serial = p }))
        × HasRoom (Serial.write_char input fuel) p

    pub log-Ends :
        (fmt : List ℕ) (args : List Arg)
        → fits true fmt args ≡ true
        → Ends (log input fuel fmt args k)
    log-Ends fmt args fit =
        let (cs, e) = fits-HasText true fmt args fit in
        let sent = log-Logged fmt args cs e in (sent.printer, sent.ends, sent.room)

    pub log_str-Ends : (cs : List ℕ) → Ends (log_str input fuel cs k)
    log_str-Ends cs = let sent = log_str-Logged cs in (sent.printer, sent.ends, sent.room)

-- A call that ends hands its result on.
pub bind-some :
    {A B : Type 0} (m : K A) (f : A → K B) (k k' : Kernel) (a : A)
    → m k ≡ some (a, k')
    → (m >>= f) k ≡ f a k'
bind-some m f k k' a e = ground (arith, e)
