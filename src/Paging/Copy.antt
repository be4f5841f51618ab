-- ===== src/Paging/Copy.antt =====
-- What a copied directory maps.
use lkd.Prelude.{ℕ, ◌+◌, ◌-◌, ◌≤◌, ◌<◌, ◌≡◌, ◌⊎◌, refl, ap, ◌∙◌, arith}
use lkd.Memory.{Memory, load32, p2v}
use lkd.Memory.Laws.{load32-ext}
use lkd.Strings.{memcpy}
use lkd.Strings.Blocks.{memcpy_lem}
use lkd.Pmm.{Pmm, allocate_frame}
use lkd.Paging.{entry_at, pd_index, pt_index, copy, page_size}
use lkd.Paging.Walk.{table_of, walk, index_lt}

module _ (m : Memory) (new old : ℕ) (apart : (new + 4096 ≤ old) ⊎ (old + 4096 ≤ new)) where
  copied_byte :
      (a b : ℕ)
      → new ≤ a
      → a < new + 4096
      → old + (a - new) ≡ b
      → memcpy m new old page_size a ≡ m b
  copied_byte a b lo hi e =
      let copied = memcpy_lem m new old page_size a (omega arith) in
      let inside : memcpy m new old page_size a ≡ m (old + (a - new)) = ground (arith, copied) in
      inside ∙ ap m e

  copied_entry :
      (i : ℕ)
      → i < 1024
      → load32 (memcpy m new old page_size) (entry_at new i) ≡ load32 m (entry_at old i)
  unfolding load32
  copied_entry i lt =
      let at = entry_at new i in
      let source = entry_at old i in
      rw
        (
          copied_byte at source (omega arith) (omega arith) (omega arith),
          copied_byte (at + 1) (source + 1) (omega arith) (omega arith) (omega arith),
          copied_byte (at + 2) (source + 2) (omega arith) (omega arith) (omega arith),
          copied_byte (at + 3) (source + 3) (omega arith) (omega arith) (omega arith),
        )
        refl

  kept_byte : (a : ℕ) → (a < new) ⊎ (new + 4096 ≤ a) → memcpy m new old page_size a ≡ m a
  kept_byte a out = ground (arith, memcpy_lem m new old page_size a (omega arith))

  kept_word :
      (a : ℕ)
      → (a + 4 ≤ new) ⊎ (new + 4096 ≤ a)
      → load32 (memcpy m new old page_size) a ≡ load32 m a
  kept_word a out =
      load32-ext (memcpy m new old page_size) m a (kept_byte a (omega arith))
        (kept_byte (a + 1) (omega arith)) (kept_byte (a + 2) (omega arith))
        (kept_byte (a + 3) (omega arith))

  walk-copied :
      (va : ℕ)
      → let f = entry_at (table_of (load32 m (entry_at old (pd_index va)))) (pt_index va) in
        (f + 4 ≤ new) ⊎ (new + 4096 ≤ f) → walk (memcpy m new old page_size) new va ≡ walk m old va
  unfolding walk
  walk-copied va out = rw (copied_entry (pd_index va) ((index_lt va).0), kept_word _ out) refl

-- Through a copied directory the processor finds every address where the original one has it, in
-- the memory whose frame for the copy has been taken, if that frame is neither the directory nor
-- the address's table.
pub walk-copy :
    (p : Pmm) (m : Memory) (page va : ℕ)
    → let (new, copied) = copy p m page in
      let taken = (allocate_frame p m).1 in
      let table = table_of (load32 taken (entry_at page (pd_index va))) in
      (new + 4096 ≤ page) ⊎ (page + 4096 ≤ new)
      → (table + 4096 ≤ new) ⊎ (new + 4096 ≤ table)
      → walk copied new va ≡ walk taken page va
unfolding copy
walk-copy p m page va apart table_apart =
    walk-copied (allocate_frame p m).1 (p2v (allocate_frame p m).0) page apart va
      (omega (arith, table_apart, (index_lt va).1))
