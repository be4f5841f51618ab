-- ===== src/Main.antt =====
-- src/main.cpp: `kmain` and `load_initrd`, over the state of all the parts that they set up.
pub mod Initrd
pub mod Refused
pub mod Lines
pub mod Stages
pub mod Boot
mod Tests
use lkd.Prelude.{ℕ, List, [], ◌∷◌, Option, none, some, Bool, ◌==◌, if◌then◌else◌, codes}
use lkd.Printing.{Printer, M, word}
use lkd.Serial
use lkd.Serial.{Serial}
use lkd.Vga
use lkd.Vga.{Vga}
use lkd.Gdt.{Gdt, gdt_init}
use lkd.Idt.{Table, idt_init}
use lkd.Timer.{Pit, pit}
use lkd.Keyboard.{Keyboard, keyboard}
use lkd.Process.{enable_scheduling}
use lkd.Pmm.Init.{init}
use lkd.Kernel
use lkd.Kernel.{Kernel, K}
use lkd.Main.Initrd.{load_initrd}

pub record Machine : Type 0 where
  pub kernel : Kernel
  pub screen : Printer Vga
  pub gdt : Option Gdt
  pub idt : Option Table
  pub pic_init : Bool
  pub timer_init : Bool
  pub ticks : ℕ
  pub keyboard : Keyboard

abbrev pub B : Type 0 → Type 0
B A = Machine → Option (A × Machine)

infixl 5 ◌>>=◌ ◌>>◌
abbrev pub ◌>>=◌ : {A C : Type 0} → B A → (A → B C) → B C
◌>>=◌ m f k = elim (m k) [ none ↦ none | some (a, k') ↦ f a k' ]

abbrev pub ◌>>◌ : {C : Type 0} → B (Unit {0}) → B C → B C
m >> n = m >>= λ _. n

abbrev pub modify : (Machine → Machine) → B (Unit {0})
modify f k = some (tt, f k)

-- A call that works on the kernel's parts, on the serial line, or on the screen.
abbrev pub on_kernel : {A : Type 0} → K A → B A
on_kernel call b = elim (call b.kernel) [
  | none ↦ none
  | some (a, k) ↦ some (a, record b { kernel = k })
]

abbrev pub on_serial : {A : Type 0} → M Serial A → B A
on_serial print = on_kernel (Kernel.on_serial print)

abbrev pub on_screen : M Vga ℕ → B (Unit {0})
on_screen print b = elim (print b.screen) [
  | none ↦ none
  | some (n, p) ↦ some (tt, record b { screen = p })
]

abbrev pub multiboot_bootloader_magic : ℕ
multiboot_bootloader_magic = 0x2BADB002

-- `timer::PIT timer_pit{freq_hz}`, on the ports that the serial line shares.
unfoldable pub start_timer : ℕ → B (Unit {0})
start_timer freq_hz b =
    let p = b.kernel.serial in
    elim (pit freq_hz (record { init = b.timer_init; ticks = b.ticks; ports = p.device.ports })) [
      | none ↦ none
      | some t ↦ some (
        tt,
        record b {
          timer_init = t.init;
          ticks = t.ticks;
          kernel = record (b.kernel) {
            serial = record p { device = record (p.device) { ports = t.ports } };
          };
        },
      )
    ]

module _ (input : ℕ → ℕ → ℕ) (fuel : ℕ) where
  -- `s.write_str(line); v.write_str(line);`
  abbrev pub say : List ℕ → B (Unit {0})
  say line = on_serial (Serial.write_str input fuel line) >>= λ _. on_screen (Vga.write_str line)

  -- What the linker, the assembly and the compiler place, and the fuel of the loops.
  module _ (gdt_address tss_address stack_top : ℕ) (isr_table irq_table : ℕ → ℕ) (isr_128 : ℕ)
      (kernel_start kernel_end local exec_one exec_two exec : ℕ) (heap_fuel tar_fuel : ℕ) where
    unfoldable pub start_tables : B (Unit {0})
    start_tables = do
      g ← on_serial (gdt_init gdt_address tss_address stack_top input fuel)
      _ ← modify (λ b. record b { gdt = some g })
      _ ← say (codes "[MAIN] GDT > OK\n")
      t ← λ b. on_serial (idt_init input fuel isr_table irq_table isr_128 b.pic_init) b
      _ ← modify (λ b. record b { idt = some (t.0); pic_init = t.1 })
      say (codes "[MAIN] IDT > OK\n")

    unfoldable pub start_devices : B (Unit {0})
    start_devices = do
      _ ← start_timer 10
      _ ← say (codes "[MAIN] Timer (PIT) > OK\n")
      _ ← modify (λ b. record b { keyboard = keyboard b.keyboard })
      say (codes "[MAIN] Keyboard > OK\n")

    -- `load_initrd` and `enable_scheduling`.
    unfoldable pub start_programs : ℕ → B (Unit {0})
    start_programs mbd = do
      _ ← on_kernel (load_initrd input fuel local exec_one exec_two exec heap_fuel tar_fuel mbd)
      modify (λ b. record b {
        kernel = record (b.kernel) { scheduler = enable_scheduling b.kernel.scheduler };
      })

    unfoldable pub start_kernel : ℕ → B (Unit {0})
    start_kernel mbd = do
      _ ← start_tables
      _ ← on_kernel (init kernel_start kernel_end mbd input fuel)
      _ ← say (codes "[MAIN] PMM > OK\n")
      _ ← start_devices
      start_programs mbd

    unfoldable pub kmain : ℕ → ℕ → B (Unit {0})
    kmain mbd magic =
        if magic == multiboot_bootloader_magic
        then start_kernel mbd
        else on_serial (
            Serial.kprintf input fuel
              (codes "[MAIN] Invalid Multiboot Magic, got : %x, expected %x!\n")
              (word magic ∷ word multiboot_bootloader_magic ∷ []))
