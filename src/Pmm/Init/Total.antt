-- ===== src/Pmm/Init/Total.antt =====
-- The loop of `PMM::init` that adds up the regions of the memory map, and logs each of them.
use lkd.Prelude.{
  ℕ, zero, suc, ◌+◌, ◌*◌, ◌%◌, ◌^◌, ◌<◌, [], ◌∷◌, some, ◌==◌, codes, ◌≡◌, refl, ◌∙◌, arith,
  Bool-cases, inl, inr,
}
use lkd.Memory.{Memory, IsBytes, load32}
use lkd.Memory.Laws.{load32-lt}
use lkd.Bits.Fields.{bit_or-high_low}
use lkd.Printing.{Printer, word, long}
use lkd.Printing.Render.{HasRoom}
use lkd.Serial
use lkd.Serial.{Serial}
use lkd.Serial.Sent.{Answers}
use lkd.Kernel.{Kernel}
use lkd.Kernel.Logs.{CanLog, Ends, log-Ends, bind-some}
use lkd.Pmm.Init.{
  MmapEntry, mmap_entry, map_len, entry_address, sizeof_entry, log_entry, total_from,
  memory_available,
}

-- The length of an entry's region, of 64 bits.
pub map_len_lem :
    (m : Memory) (a : ℕ)
    → IsBytes m
    → map_len (mmap_entry m a) ≡ load32 m (a + 16) * 2 ^ 32 + load32 m (a + 12)
unfolding map_len mmap_entry
map_len_lem m a bytes =
    bit_or-high_low 32 (load32 m (a + 16)) (load32 m (a + 12)) (load32-lt m (a + 12) bytes)

-- The sum of the lengths of the entries from `i` on, cut to 64 bits.
abbrev pub total_lengths : Memory → ℕ → ℕ → ℕ → ℕ → ℕ
total_lengths m mbd i zero total = total
total_lengths m mbd i (suc rounds) total =
    total_lengths m mbd (i + sizeof_entry) rounds
      ((total + map_len (mmap_entry m (entry_address m mbd i))) % 2 ^ 64)

module _ (input : ℕ → ℕ → ℕ) (fuel : ℕ) (answers : Answers input fuel)
    (kernel_start kernel_end mbd : ℕ) where
  log_entry-Ends :
      (e : MmapEntry) (k : Kernel) (room : CanLog input fuel k)
      → e.addr_low < 2 ^ 32
      → map_len e < 2 ^ 64
      → Ends input fuel answers k room (log_entry kernel_start kernel_end mbd input fuel e k)
  unfolding log_entry
  log_entry-Ends e k room low long_enough =
      let args = word e.addr_low ∷ long (map_len e) ∷ [] in
      elim (Bool-cases (e.type == memory_available)) [
        | inl y ↦ rw y (
            log-Ends input fuel answers k room
              (codes "[PMM] Start Addr: %x | Length: %X | Type: Free Memory\n") args (ground arith))
        | inr n ↦ rw n (
            log-Ends input fuel answers k room
              (codes "[PMM] Start Addr: %x | Length: %X | Type: Unusable Memory\n") args
              (ground arith))
      ]

  pub total_from_lem :
      (i rounds total : ℕ) (k : Kernel)
      → CanLog input fuel k
      → IsBytes k.memory
      → (p : Printer Serial) × (total_from kernel_start kernel_end mbd input fuel i rounds total k
          ≡ some (total_lengths k.memory mbd i rounds total, record k { serial = p }))
        × HasRoom (Serial.write_char input fuel) p
  unfolding total_from mmap_entry
  total_from_lem i zero total k room bytes = (k.serial, refl, room)
  total_from_lem i (suc rounds) total k room bytes =
      let e = mmap_entry k.memory (entry_address k.memory mbd i) in
      let (p, ends, room') =
        log_entry-Ends e k room (load32-lt k.memory (entry_address k.memory mbd i + 4) bytes) (
          omega (
            arith,
            map_len_lem k.memory (entry_address k.memory mbd i) bytes,
            load32-lt k.memory (entry_address k.memory mbd i + 12) bytes,
            load32-lt k.memory (entry_address k.memory mbd i + 16) bytes,
          )) in
      let (q, ends', room'') =
        total_from_lem (i + sizeof_entry) rounds ((total + map_len e) % 2 ^ 64)
          (record k { serial = p }) room' bytes in
      (
        q,
        bind-some (log_entry kernel_start kernel_end mbd input fuel e)
              (λ _.
                total_from kernel_start kernel_end mbd input fuel (i + sizeof_entry) rounds
                  ((total + map_len e) % 2 ^ 64))
              k (record k { serial = p }) tt ends
            ∙ ends',
        room'',
      )
