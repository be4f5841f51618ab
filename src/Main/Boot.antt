-- ===== src/Main/Boot.antt =====
-- What `kmain` does up to the programs, for a Multiboot loader.
use lkd.Prelude.{ℕ, ◌^◌, ◌<◌, ◌==◌, if◌then◌else◌, bit_and, ◌>>>◌, codes}
use lkd.Printing.{Printer}
use lkd.Serial.{Serial}
use lkd.Serial.Sent.{Answers}
use lkd.Idt.{Table}
use lkd.Keyboard.{keyboard}
use lkd.Pmm.Init.{flags}
use lkd.Pmm.Init.Ends.{booted}
use lkd.Kernel.{Kernel}
use lkd.Main.{Machine}
use lkd.Main.Lines.{shown}
use lkd.Main.Stages.{with_timer, with_tables}

module _ (input : ℕ → ℕ → ℕ) (fuel : ℕ) (answers : Answers input fuel)
    (gdt_address tss_address stack_top : ℕ) (isr_table irq_table : ℕ → ℕ)
    (isr_128 kernel_start kernel_end local exec_one exec_two exec heap_fuel tar_fuel : ℕ)
    (address : gdt_address < 2 ^ 32) (mbd : ℕ) where
  -- What `PMM::init` leaves, but for the serial line.
  unfoldable pub after_init : Kernel → Kernel
  after_init k =
      if bit_and (flags k.memory mbd >>> 6) 0x1 == 0
      then k
      else booted input fuel answers kernel_start kernel_end mbd k

  -- The machine that the programs start on, with the table `t` and the serial printer `p`.
  abbrev pub booted_machine : Machine → Table → Printer Serial → Machine
  booted_machine b t p =
      let b1 =
        with_tables input fuel answers gdt_address tss_address stack_top isr_table irq_table isr_128
          kernel_start kernel_end local exec_one exec_two exec heap_fuel tar_fuel address b t in
      record (with_timer b1) {
        keyboard = keyboard b.keyboard;
        kernel = record (after_init b.kernel) { serial = p };
        screen = record (b.screen) {
          device = shown (codes "[MAIN] Keyboard > OK\n") (
              shown (codes "[MAIN] Timer (PIT) > OK\n") (
                shown (codes "[MAIN] PMM > OK\n") (
                  shown (codes "[MAIN] IDT > OK\n")
                    (shown (codes "[MAIN] GDT > OK\n") b.screen.device))));
        };
      }
