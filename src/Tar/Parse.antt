-- ===== src/Tar/Parse.antt =====
-- `parse_tar` of src/utils/tar.cpp: the list of the archive's entries, on the heap, the last one
-- first. `none` is the end of the fuel, which bounds the entries, or a block that is null.
use lkd.Prelude.{ℕ, zero, suc, ◌+◌, none, some, ◌==◌, if◌then◌else◌}
use lkd.Memory.{Memory, store32}
use lkd.Strings.{memcpy}
use lkd.Pmm.{null}
use lkd.Kmalloc.Malloc.{malloc}
use lkd.Kernel.{K, pure, modify, ◌>>=◌}
use lkd.Tar.{getsize, size_offset, next_header}

-- `sizeof(utils::Tar)`, and where `data` and `next` are in it.
abbrev pub sizeof_tar : ℕ
sizeof_tar = 168

abbrev pub data_offset : ℕ
data_offset = 160

abbrev pub next_offset : ℕ
next_offset = 164

module _ (heap_fuel : ℕ) where
  -- `kmalloc::malloc`, of a block that is written to.
  unfoldable pub get_block : ℕ → K ℕ
  get_block size k = elim (malloc k.pmm heap_fuel k.memory k.heap size) [
    | none ↦ none
    | some (block, heap, m) ↦
        if block == null then none else some (block, record k { heap = heap; memory = m })
  ]

  abbrev write : (Memory → Memory) → K (Unit {0})
  write f = modify (λ k. record k { memory = f k.memory })

  -- The copy of an entry whose header is at `address`, in front of the list `out`.
  unfoldable pub add_entry : ℕ → ℕ → ℕ → K ℕ
  add_entry address size out = do
    new_tar ← get_block sizeof_tar
    _ ← write (λ m. memcpy m new_tar address sizeof_tar)
    contents ← get_block size
    _ ← write (λ m. store32 m (new_tar + data_offset) contents)
    _ ← write (λ m. memcpy m contents (address + 512) size)
    _ ← write (λ m. store32 m (new_tar + next_offset) null)
    _ ← write (λ m. store32 m (new_tar + next_offset) (if out == null then null else out))
    pure new_tar

  -- The loop, at entry `i`.
  unfoldable pub parse_from : ℕ → ℕ → ℕ → ℕ → K ℕ
  parse_from zero address i out k = none
  parse_from (suc fuel) address i out k =
      let size = getsize k.memory (address + size_offset) in
      let added =
        (add_entry address size out >>= λ new_tar.
        parse_from fuel (next_header address size) (i + 1) new_tar)
          k in
      if k.memory (address + i) == 0 then some (out, k) else added

  unfoldable pub parse_tar : ℕ → ℕ → K ℕ
  parse_tar fuel address = parse_from fuel address 0 null
