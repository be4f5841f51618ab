-- ===== src/Main/Tests.antt =====
-- A machine before `kmain`, started by another boot loader or by a Multiboot one.
use lkd.Prelude.{◌++◌, [], none, some, false, ◌≡◌, arith}
use lkd.Printing.{Printer}
use lkd.Serial.{Serial}
use lkd.Serial.Lines.{CanPrint}
use lkd.Kernel.Sample.{ready, ready-Answers, line_room, kernel}
use lkd.Main.{Machine, kmain}
use lkd.Main.Refused.{invalid_magic, kmain-refused}
use lkd.Serial.Sent.{sent}
use lkd.Pmm.Init.Sample.{boot_kernel}
use lkd.Keyboard.{keyboard}

abbrev machine : Machine
machine = record {
  kernel = kernel (λ a. 0) (record { nb_frames = 0; bm = record { ptr = 0; size = 0 } }) 0;
  screen = record {
    device = record {
      init = false;
      width = 0;
      height = 0;
      x = 0;
      y = 0;
      color = 0;
      screen = λ i. 0;
    };
    stack = [];
    stack_idx = 0;
  };
  gdt = none;
  idt = none;
  pic_init = false;
  timer_init = false;
  ticks = 0;
  keyboard = record { init = false; idx = 0; read = 0; column = 0; queue = [] };
}

kmain-refused_example :
    (p : Printer Serial) × (kmain ready 2 0 0 0
        (λ i. 0)
        (λ i. 0)
        0
        0xC0100000
        0xC0110000
        0
        0
        0
        0
        28
        16
        0x200
        7
        machine
      ≡ some (tt, record machine { kernel = record (machine.kernel) { serial = p } }))
    × CanPrint ready 2 p
    × (p.device.ports.written ≡ [] ++ sent false (invalid_magic 7))
kmain-refused_example =
    kmain-refused ready 2 0 0 0 (λ i. 0) (λ i. 0) 0 0xC0100000 0xC0110000 0 0 0 0 28 16 0x200 7
      machine ready-Answers line_room (omega arith) (omega arith)

-- The boot loader gives a memory map.
abbrev started : Machine
started = record machine { kernel = boot_kernel }
