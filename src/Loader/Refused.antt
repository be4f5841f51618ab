-- ===== src/Loader/Refused.antt =====
-- What `Elf32::load` does with a file that is not an ELF file.
use lkd.Prelude.{ℕ, ◌+◌, ◌≤◌, ◌++◌, some, false, codes, ◌≡◌, ◌⊎◌, inl, inr, Bool-cases, arith}
use lkd.Printing.{Printer}
use lkd.Serial.{Serial}
use lkd.Serial.Sent.{Answers, sent}
use lkd.Kernel.{Kernel}
use lkd.Kernel.Logs.{CanLog, log_str-Logged}
use lkd.Loader.{verify_header}
use lkd.Loader.Header.{IsElf, verify_header_iff}
use lkd.Loader.Load.{Elf32, load}

-- `load` of a file that does not begin with the ELF magic says so on a serial line that answers,
-- and changes nothing else: no memory, no frame, and not the entry point; where the local copy of
-- the magic does not overlap the file's first four bytes.
pub load-refused :
    (input : ℕ → ℕ → ℕ) (fuel local pd : ℕ) (elf : Elf32) (k : Kernel)
    → Answers input fuel
    → CanLog input fuel k
    → (local + 4 ≤ elf.elf_header) ⊎ (elf.elf_header + 4 ≤ local)
    → ¬ IsElf k.memory elf.elf_header
    → (p : Printer Serial) × (load input fuel local elf pd k ≡ some (elf, record k { serial = p }))
      × (p.device.ports.written
          ≡ k.serial.device.ports.written
            ++ sent k.serial.device.init (codes "[ELF] Invalid ELF magic!\n"))
unfolding load
load-refused input fuel local pd elf k answers room apart not_elf =
    let line = log_str-Logged input fuel answers k room (codes "[ELF] Invalid ELF magic!\n") in
    let refused : verify_header k.memory elf.elf_header local ≡ false =
      elim (Bool-cases (verify_header k.memory elf.elf_header local)) [
        | inl accepted ↦
            absurd (not_elf ((verify_header_iff k.memory elf.elf_header local apart).0 accepted))
        | inr refuses ↦ refuses
      ] in
    (line.printer, rw refused (ground (arith, line.ends)), line.sends)
