-- ===== src/Serial.antt =====
-- `serial::Serial` of src/outputs/serial.cpp: the UART on COM1. `input` is what the hardware answers,
-- and `fuel` bounds the polls of its status for each character; `none` means that they ran out.
pub mod Sent
pub mod Lines
mod Tests
use lkd.Prelude.{
  ℕ, zero, suc, ◌+◌, List, [], ◌∷◌, Option, none, some, Bool, true, false, ◌==◌, if◌then◌else◌,
  bit_and,
}
use lkd.Ports.{Ports, outb, inb}
use lkd.Printing
use lkd.Printing.{Printer, M, Arg}
use lkd.Printing.Format

abbrev pub com1 : ℕ
com1 = 0x3F8

pub record Serial : Type 0 where
  pub init : Bool
  pub ports : Ports

unfoldable pub init_serial : Ports → Ports
init_serial io =
    let io = outb (com1 + 1) 0x00 io in
    let io = outb (com1 + 3) 0x80 io in
    let io = outb (com1 + 0) 0x03 io in
    let io = outb (com1 + 1) 0x00 io in
    let io = outb (com1 + 3) 0x03 io in
    let io = outb (com1 + 2) 0xC7 io in
    let io = outb (com1 + 4) 0x0B io in
    let io = outb (com1 + 4) 0x1E io in let io = outb (com1 + 0) 0xAE io in outb (com1 + 4) 0x0F io

module _ (input : ℕ → ℕ → ℕ) (fuel : ℕ) where
  unfoldable pub is_transmit_empty : Ports → ℕ × Ports
  is_transmit_empty io = let (status, io') = inb input (com1 + 5) io in (bit_and status 0x20, io')

  -- `while (this->is_transmit_empty() == 0);`
  unfoldable pub wait_transmit : ℕ → Ports → Option Ports
  wait_transmit zero io = none
  wait_transmit (suc polls) io =
      let (ready, io') = is_transmit_empty io in
      let rest = wait_transmit polls io' in if ready == 0 then rest else some io'

  unfoldable pub write_char : ℕ → Serial → Option Serial
  write_char ch s =
      let io = if s.init then s.ports else init_serial s.ports in
      elim (wait_transmit fuel io) [
        | none ↦ none
        | some io' ↦ some (record { init = true; ports = outb com1 ch io' })
      ]

  abbrev pub write_str : List ℕ → M Serial ℕ
  write_str = Printing.write_str write_char

  abbrev pub write : List ℕ → ℕ → M Serial ℕ
  write = Printing.write write_char

  abbrev pub print_hex : ℕ → ℕ → M Serial (Unit {0})
  print_hex = Printing.print_hex write_char

  abbrev pub print_dec : ℕ → M Serial (Unit {0})
  print_dec = Printing.print_dec write_char

  abbrev pub kprintf : List ℕ → List Arg → M Serial (Unit {0})
  kprintf = Format.kprintf write_char true
