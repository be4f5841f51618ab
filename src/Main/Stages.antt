-- ===== src/Main/Stages.antt =====
-- What the first calls of `kmain` set up: the tables, the timer and the keyboard.
use lkd.Prelude.{ℕ, ◌^◌, ◌<◌, some, Bool, true, false, if◌then◌else◌, codes, ◌≡◌, refl, ◌∙◌, arith}
use lkd.Printing.{Printer}
use lkd.Ports.{Ports}
use lkd.Serial.{Serial}
use lkd.Serial.Sent.{Answers}
use lkd.Serial.Lines.{CanPrint}
use lkd.Gdt.{gdt_setup, gdt_init}
use lkd.Gdt.Logs.{gdt_init-ends}
use lkd.Idt.{Table, idt_init}
use lkd.Idt.Gates.{gate, idt_init-gates}
use lkd.Timer.{pit}
use lkd.Keyboard.{keyboard}
use lkd.Main.{Machine, on_serial, say, start_timer, start_tables, start_devices}
use lkd.Main.Lines.{shown, then_ends, on_serial_ends, printed, say_lem}

-- A timer that has been set up stays as it is.
pit_ends :
    (init : Bool) (ticks : ℕ) (io : Ports)
    → (io' : Ports) × (pit 10 (record { init = init; ticks = ticks; ports = io })
        ≡ some (record { init = true; ticks = if init then ticks else 0; ports = io' }))
unfolding pit
pit_ends true ticks io = (io, refl)
pit_ends false ticks io = (_, refl)

abbrev pub with_timer : Machine → Machine
with_timer b = record b { timer_init = true; ticks = if b.timer_init then b.ticks else 0 }

start_timer_lem :
    (b : Machine)
    → (d : Serial) × (start_timer 10 b
        ≡ some (
          tt,
          record (with_timer b) {
            kernel = record (b.kernel) { serial = record (b.kernel.serial) { device = d } };
          },
        ))
unfolding start_timer
start_timer_lem b =
    let (io, e) = pit_ends b.timer_init b.ticks b.kernel.serial.device.ports in
    (record (b.kernel.serial.device) { ports = io }, ground (arith, e))

module _ (input : ℕ → ℕ → ℕ) (fuel : ℕ) (answers : Answers input fuel) where
  module _ (gdt_address tss_address stack_top : ℕ) (isr_table irq_table : ℕ → ℕ) (isr_128 : ℕ)
      (kernel_start kernel_end local exec_one exec_two exec heap_fuel tar_fuel : ℕ)
      (address : gdt_address < 2 ^ 32) where
    -- The machine with the tables.
    abbrev pub with_tables : Machine → Table → Machine
    with_tables b t = record b {
      gdt = some (gdt_setup gdt_address tss_address stack_top);
      idt = some t;
      pic_init = true;
    }

    pub start_tables_lem :
        (b : Machine)
        → CanPrint input fuel b.kernel.serial
        → (p : Printer Serial) × (t : Table) × (start_tables input fuel gdt_address tss_address
              stack_top isr_table irq_table isr_128 kernel_start kernel_end local exec_one exec_two
              exec heap_fuel tar_fuel b
            ≡ some (
              tt,
              printed (with_tables b t) p (
                  shown
                    (codes "[MAIN] IDT > OK\n")
                    (shown (codes "[MAIN] GDT > OK\n") b.screen.device)),
            ))
          × CanPrint input fuel p
          × ((j : ℕ) → t j ≡ gate input fuel answers isr_table irq_table isr_128 j)
    unfolding start_tables
    start_tables_lem b room =
        let (p1, e1, r1) =
          gdt_init-ends input fuel answers gdt_address tss_address stack_top b.kernel.serial address
            room in
        let g = gdt_setup gdt_address tss_address stack_top in
        let b1 : Machine = record b { gdt = some g; kernel = record (b.kernel) { serial = p1 } } in
        let (d2, e2) = say_lem input fuel answers (codes "[MAIN] GDT > OK\n") b1 r1 in
        let b2 =
          printed b1 (record p1 { device = d2 })
            (shown (codes "[MAIN] GDT > OK\n") b.screen.device) in
        let (t, d3, e3, gates, written) =
          idt_init-gates input fuel answers isr_table irq_table isr_128 b.pic_init
            b2.kernel.serial in
        let p3 : Printer Serial = record p1 { device = d3 } in
        let b3 : Machine = record b2 {
          idt = some t;
          pic_init = true;
          kernel = record (b.kernel) { serial = p3 };
        } in
        let (d4, e4) = say_lem input fuel answers (codes "[MAIN] IDT > OK\n") b3 r1 in
        (
          record p1 { device = d4 },
          t,
          then_ends (on_serial (gdt_init gdt_address tss_address stack_top input fuel)) _ b
                (record b { kernel = record (b.kernel) { serial = p1 } }) g
                (on_serial_ends (gdt_init gdt_address tss_address stack_top input fuel) b g p1 e1)
              ∙ then_ends (say input fuel (codes "[MAIN] GDT > OK\n")) _ b1 b2 tt e2
              ∙ then_ends (on_serial (idt_init input fuel isr_table irq_table isr_128 b.pic_init)) _
                  b2 (record b2 { kernel = record (b.kernel) { serial = p3 } }) (t, true)
                  (on_serial_ends (idt_init input fuel isr_table irq_table isr_128 b.pic_init) b2
                    (t, true) p3 e3)
              ∙ e4,
          r1,
          gates,
        )

    pub start_devices_lem :
        (b : Machine)
        → CanPrint input fuel b.kernel.serial
        → (d : Serial) × (start_devices input fuel gdt_address tss_address stack_top isr_table
              irq_table isr_128 kernel_start kernel_end local exec_one exec_two exec heap_fuel
              tar_fuel b
            ≡ some (
              tt,
              printed
                  (record (with_timer b) { keyboard = keyboard b.keyboard })
                  (record (b.kernel.serial) { device = d })
                  (shown
                    (codes "[MAIN] Keyboard > OK\n")
                    (shown (codes "[MAIN] Timer (PIT) > OK\n") b.screen.device)),
            ))
    unfolding start_devices
    start_devices_lem b room =
        let (d1, e1) = start_timer_lem b in
        let p1 : Printer Serial = record (b.kernel.serial) { device = d1 } in
        let b1 : Machine = record (with_timer b) { kernel = record (b.kernel) { serial = p1 } } in
        let (d2, e2) = say_lem input fuel answers (codes "[MAIN] Timer (PIT) > OK\n") b1 room in
        let b2 =
          printed b1 (record p1 { device = d2 })
            (shown (codes "[MAIN] Timer (PIT) > OK\n") b.screen.device) in
        let b3 : Machine = record b2 { keyboard = keyboard b.keyboard } in
        let (d4, e4) = say_lem input fuel answers (codes "[MAIN] Keyboard > OK\n") b3 room in
        (
          d4,
          then_ends (start_timer 10) _ b b1 tt e1
              ∙ then_ends (say input fuel (codes "[MAIN] Timer (PIT) > OK\n")) _ b1 b2 tt e2
              ∙ e4,
        )
