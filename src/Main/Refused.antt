-- ===== src/Main/Refused.antt =====
-- What `kmain` does for a boot loader that is not a Multiboot one.
use lkd.Prelude.{ℕ, ◌^◌, ◌<◌, List, ltb, true, refl, ◌++◌, some, ◌≡◌, ◌≢◌, arith, [], ◌∷◌, codes}
use lkd.Printing.{Printer, Arg, word}
use lkd.Printing.Stack.{ne→==false}
use lkd.Serial.{Serial}
use lkd.Serial.Sent.{Answers, sent}
use lkd.Serial.Lines.{CanPrint, kprintf-Printed}
use lkd.Printing.Digits.{hex_text}
use lkd.Printing.Conversions.{rendered}
use lkd.Main.{Machine, multiboot_bootloader_magic, kmain}

-- The line that tells of the wrong magic, and of the one that is expected.
abbrev magic_line : ℕ → ℕ → List ℕ
magic_line magic expected =
    codes "[MAIN] Invalid Multiboot Magic, got : "
    ++ hex_text magic 32
    ++ (codes ", expected " ++ hex_text expected 32 ++ codes "!\n")

abbrev pub invalid_magic : ℕ → List ℕ
invalid_magic magic = magic_line magic multiboot_bootloader_magic

magic_line-first :
    (fmt cs : List ℕ) (magic : ℕ) (args : List Arg)
    → magic < 2 ^ 32
    → rendered true fmt args ≡ some cs
    → rendered true (codes "[MAIN] Invalid Multiboot Magic, got : %x" ++ fmt) (word magic ∷ args)
      ≡ some (codes "[MAIN] Invalid Multiboot Magic, got : " ++ hex_text magic 32 ++ cs)
unfolding rendered
magic_line-first fmt cs magic args small rest =
    let fits : ltb magic (2 ^ 32) ≡ true = ground arith in rw (fits, rest) refl

magic_line-second :
    (expected : ℕ)
    → expected < 2 ^ 32
    → rendered true (codes ", expected %x!\n") (word expected ∷ [])
      ≡ some (codes ", expected " ++ hex_text expected 32 ++ codes "!\n")
unfolding rendered
magic_line-second expected small =
    let fits : ltb expected (2 ^ 32) ≡ true = ground arith in rw fits refl

magic_line-rendered :
    (magic expected : ℕ)
    → magic < 2 ^ 32
    → expected < 2 ^ 32
    → rendered true
        (codes "[MAIN] Invalid Multiboot Magic, got : %x, expected %x!\n")
        (word magic ∷ word expected ∷ [])
      ≡ some (magic_line magic expected)
magic_line-rendered magic expected small small' =
    magic_line-first (codes ", expected %x!\n") _ magic (word expected ∷ []) small
      (magic_line-second expected small')

module _ (input : ℕ → ℕ → ℕ) (fuel gdt_address tss_address stack_top : ℕ)
    (isr_table irq_table : ℕ → ℕ)
    (isr_128 kernel_start kernel_end local exec_one exec_two exec heap_fuel tar_fuel : ℕ) where
  -- With another magic, of 32 bits, than a Multiboot loader's, `kmain` sends a line with both, in
  -- hexadecimal, on a serial line that answers and with room on the stack for the digits of a
  -- number, returns, and changes nothing else: no table, no device, no process.
  pub kmain-refused :
      (mbd magic : ℕ) (b : Machine)
      → Answers input fuel
      → CanPrint input fuel b.kernel.serial
      → magic < 2 ^ 32
      → magic ≢ multiboot_bootloader_magic
      → (p : Printer Serial) × (kmain input fuel gdt_address tss_address stack_top isr_table
            irq_table isr_128 kernel_start kernel_end local exec_one exec_two exec heap_fuel
            tar_fuel mbd magic b
          ≡ some (tt, record b { kernel = record (b.kernel) { serial = p } }))
        × CanPrint input fuel p
        × (p.device.ports.written
            ≡ b.kernel.serial.device.ports.written
              ++ sent b.kernel.serial.device.init (invalid_magic magic))
  unfolding kmain
  kmain-refused mbd magic b answers room small other =
      let line =
        kprintf-Printed input fuel answers b.kernel.serial room
          (codes "[MAIN] Invalid Multiboot Magic, got : %x, expected %x!\n")
          (word magic ∷ word multiboot_bootloader_magic ∷ []) (invalid_magic magic)
          (magic_line-rendered magic multiboot_bootloader_magic small (omega arith)) in
      (
        line.printer,
        rw (ne→==false magic multiboot_bootloader_magic other) (ground (arith, line.ends)),
        line.room,
        line.sends,
      )
