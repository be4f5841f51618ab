-- ===== src/Loader/Header.antt =====
-- Which files pass for ELF files.
use lkd.Prelude.{ℕ, ◌+◌, ◌≤◌, true, ◌≡◌, ◌↔◌, ◌⊎◌, ap, sym, ◌∙◌, arith}
use lkd.Prelude.Int.{ℤ}
use lkd.Memory.{Memory}
use lkd.Strings.{memcmp}
use lkd.Strings.Compare.{SameBytes, Compared, equal, less, greater, memcmp-Compared}
use lkd.Loader.{is_zero, elf_magic, verify_header}

is_zero-Compared :
    (m : Memory) (one two n : ℕ) (r : ℤ)
    → Compared m one two 0 n r
    → (is_zero r ≡ true) ↔ SameBytes m one two 0 n
unfolding is_zero
is_zero-Compared m one two n r (equal e same) = (λ z. same, λ s. ap is_zero e)
is_zero-Compared m one two n r (less k e lo hi same lt) =
    (λ z. absurd (ground (arith, sym (ap is_zero e) ∙ z)), λ s. absurd (omega (arith, s k lo hi)))
is_zero-Compared m one two n r (greater k e lo hi same lt) =
    (λ z. absurd (ground (arith, sym (ap is_zero e) ∙ z)), λ s. absurd (omega (arith, s k lo hi)))

-- The file begins with the four bytes of the ELF magic.
abbrev pub IsElf : Memory → ℕ → Type 0
IsElf m elf = (m elf ≡ 0x7F) × (m (elf + 1) ≡ b'E') × (m (elf + 2) ≡ b'L') × (m (elf + 3) ≡ b'F')

-- `verify_header` accepts exactly the files that begin with the ELF magic, where the local copy of the
-- magic does not overlap the file's first four bytes.
pub verify_header_iff :
    (m : Memory) (elf local : ℕ)
    → (local + 4 ≤ elf) ⊎ (elf + 4 ≤ local)
    → (verify_header m elf local ≡ true) ↔ IsElf m elf
unfolding verify_header elf_magic
verify_header_iff m elf local apart =
    let (to, from) =
      is_zero-Compared (elf_magic m local) elf local 4 (memcmp (elf_magic m local) elf local 4)
        (memcmp-Compared (elf_magic m local) elf local 4) in
    (
      λ accepted.
          let same = to accepted in
          (
            ground (arith, same 0 (omega arith) (omega arith)),
            ground (arith, same 1 (omega arith) (omega arith)),
            ground (arith, same 2 (omega arith) (omega arith)),
            ground (arith, same 3 (omega arith) (omega arith)),
          ),
      λ magic. from (λ i low high. ground (arith, magic)),
    )
