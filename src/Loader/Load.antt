-- ===== src/Loader/Load.antt =====
-- `Elf32::load` of src/loader/loader.cpp, with the two headers of src/loader/includes/loader.hpp. The
-- fields of a program header are read once, before its segment is loaded.
use lkd.Prelude.{
  ℕ, zero, suc, ◌+◌, ◌*◌, ◌^◌, [], ◌∷◌, none, some, not, ◌==◌, ◌&&◌, if◌then◌else◌, u32, codes,
}
use lkd.Memory.{Memory, load32}
use lkd.Printing.{word}
use lkd.Pmm.{allocate_frame}
use lkd.Paging.{map_page, get_current_pd}
use lkd.Paging.Access.{copy_to}
use lkd.Kernel.{K, pure, gets, ◌>>=◌, ◌>>◌, log, log_str}
use lkd.Loader.{verify_header}

-- A `uint16_t` read through a pointer.
abbrev pub load16 : Memory → ℕ → ℕ
load16 m a = m a + m (a + 1) * 2 ^ 8

-- The fields of `Elf32_Ehdr` that are read.
abbrev pub e_entry : Memory → ℕ → ℕ
e_entry m elf = load32 m (elf + 24)

abbrev pub e_phoff : Memory → ℕ → ℕ
e_phoff m elf = load32 m (elf + 28)

abbrev pub e_phentsize : Memory → ℕ → ℕ
e_phentsize m elf = load16 m (elf + 42)

abbrev pub e_phnum : Memory → ℕ → ℕ
e_phnum m elf = load16 m (elf + 44)

-- `Elf32_Phdr`, as far as it is read.
pub record Phdr : Type 0 where
  pub p_type : ℕ
  pub p_offset : ℕ
  pub p_vaddr : ℕ
  pub p_paddr : ℕ
  pub p_filesz : ℕ

unfoldable pub phdr : Memory → ℕ → Phdr
phdr m a = record {
  p_type = load32 m a;
  p_offset = load32 m (a + 4);
  p_vaddr = load32 m (a + 8);
  p_paddr = load32 m (a + 12);
  p_filesz = load32 m (a + 16);
}

abbrev pub pt_load : ℕ
pt_load = 1

pub record Elf32 : Type 0 where
  pub elf_header : ℕ
  pub entry_point : ℕ

-- The constructor.
unfoldable pub elf32 : ℕ → Elf32
elf32 elf = record { elf_header = elf; entry_point = 0 }

-- `run_process`; `enter_userland` is assembly.
unfoldable pub run_process : (ℕ → K (Unit {0})) → Elf32 → K (Unit {0})
run_process enter_userland elf = enter_userland elf.entry_point

-- A frame, mapped at the segment's address, and the file's bytes, through the directory in `cr3`.
unfoldable pub load_segment : ℕ → ℕ → Phdr → K (Unit {0})
load_segment pd elf_ptr h k =
    let (phys_addr, m) = allocate_frame k.pmm k.memory in
    let mapped = map_page k.pmm m pd phys_addr h.p_vaddr 0x7 in
    elim (copy_to (get_current_pd k.scheduler.cr3) h.p_vaddr (u32 (elf_ptr + h.p_offset)) h.p_filesz
      mapped) [ none ↦ none | some m' ↦ some (tt, record k { memory = m' }) ]

module _ (input : ℕ → ℕ → ℕ) (fuel : ℕ) where
  unfoldable pub log_header : Phdr → K (Unit {0})
  log_header h =
      log input fuel (codes "=== Program Header ===\n") []
      >> log input fuel (codes "    Type: %x\n") (word h.p_type ∷ [])
      >> log input fuel (codes "    Vaddr: %x\n") (word h.p_vaddr ∷ [])
      >> log input fuel (codes "    Paddr: %x\n") (word h.p_paddr ∷ [])

  -- The loop over the program headers, at `i`, with `rounds` of them left.
  unfoldable pub load_from : ℕ → ℕ → ℕ → ℕ → ℕ → ℕ → K (Unit {0})
  load_from pd elf_ptr ph_offset ph_size i zero = pure tt
  load_from pd elf_ptr ph_offset ph_size i (suc rounds) = do
    h ← gets (λ k. phdr k.memory (u32 (elf_ptr + ph_offset + i * ph_size)))
    _ ← log_header h
    _ ← if h.p_type == pt_load && not (h.p_filesz == 0) then load_segment pd elf_ptr h else pure tt
    load_from pd elf_ptr ph_offset ph_size (i + 1) rounds

  -- Behind the test of the header.
  unfoldable pub load_segments : Elf32 → ℕ → K Elf32
  load_segments elf pd = do
    m ← gets (λ k. k.memory)
    _ ←
        load_from pd elf.elf_header (e_phoff m elf.elf_header) (e_phentsize m elf.elf_header) 0
          (e_phnum m elf.elf_header)
    entry ← gets (λ k. e_entry k.memory elf.elf_header)
    pure (record elf { entry_point = entry })

  -- `local` is the address of the array of `verify_header` on the stack.
  unfoldable pub load : ℕ → Elf32 → ℕ → K Elf32
  load local elf pd k =
      if verify_header k.memory elf.elf_header local
      then load_segments elf pd k
      else (log_str input fuel (codes "[ELF] Invalid ELF magic!\n") >>= λ _. pure elf) k
