-- ===== src/Kernel/Sample.antt =====
-- Test data: a serial line that is ready at every second poll, and a kernel without processes.
use native.Mathlib.Decide.{ℕ_discrete}
use lkd.Prelude.{ℕ, ◌%◌, [], none, false, replicate, ◌==◌, if◌then◌else◌, arith}
use lkd.Memory.{Memory}
use lkd.Printing.{Printer}
use lkd.Serial.{Serial}
use lkd.Serial.Sent.{Answers}
use lkd.Serial.Lines.{CanPrint}
use lkd.Pmm.{Pmm}
use lkd.Kernel.{Kernel}

abbrev pub ready : ℕ → ℕ → ℕ
ready n port = if n % 2 == 0 then 0x60 else 0

pub ready-Answers : Answers ready 2
ready-Answers n = elim (ℕ_discrete (n % 2) 0) [
  | yes even ↦ (0, omega arith, ground (arith, even))
  | no odd ↦ (1, omega arith, ground (arith, odd))
]

abbrev pub line : Printer Serial
line = record {
  device = record { init = false; ports = record { written = []; reads = 1 } };
  stack = replicate 256 0;
  stack_idx = 0;
}

pub line_room : CanPrint ready 2 line
line_room = omega arith

abbrev pub kernel : Memory → Pmm → ℕ → Kernel
kernel m p cr3 = record {
  memory = m;
  pmm = p;
  heap = [];
  scheduler = record { init = false; processes = []; current = none; cr3 = cr3 };
  serial = line;
}
