-- ===== src/Idt/Tests.antt =====
-- A table whose stubs stand 16 bytes apart, on a line that is always ready.
use lkd.Prelude.{ltb, if◌then◌else◌, ℕ, ◌+◌, ◌*◌, [], true}
use lkd.Printing.{Printer}
use lkd.Serial.{Serial}

abbrev ready : ℕ → ℕ → ℕ
ready n port = 0x20

abbrev line : Printer Serial
line = record {
  device = record { init = true; ports = record { written = []; reads = 0 } };
  stack = [];
  stack_idx = 0;
}

-- The stubs of the vectors that there are.
abbrev stub : ℕ → ℕ
stub i = if ltb i 32 then 16 * i else 0

abbrev irq_stub : ℕ → ℕ
irq_stub i = if ltb i 16 then 4096 + 16 * i else 0
