-- ===== src/Pmm/Init/Outside.antt =====
-- What stays as it is where only the bitmap is written: the memory map that the loop reads.
use lkd.Prelude.{ℕ, zero, suc, ◌+◌, ◌/◌, ◌≤◌, ◌<◌, u32, ◌≡◌, refl, ◌∙◌, ◌⊎◌, arith}
use lkd.Memory.{Memory, load32}
use lkd.Memory.Laws.{load32-ext}
use lkd.Bitmap.{set_bit, clear_bit}
use lkd.Bitmap.Laws.{set_bit_lem, clear_bit_lem}
use lkd.Pmm.{Pmm, frame_size, region_frames, set_unused, set_unused_from, set_used, set_used_from}
use lkd.Pmm.Init.{mmap_entry, sizeof_entry}

-- The addresses that are not the bitmap's.
abbrev pub Outside : Pmm → ℕ → Type 0
Outside p a = (a < p.bm.ptr) ⊎ (p.bm.ptr + p.bm.size ≤ a)

-- Two memories that only differ in the bitmap.
abbrev pub SameOutside : Pmm → Memory → Memory → Type 0
SameOutside p m n = (a : ℕ) → Outside p a → m a ≡ n a

pub load32-same :
    (p : Pmm) (m n : Memory) (a : ℕ)
    → SameOutside p m n
    → (a + 4 ≤ p.bm.ptr) ⊎ (p.bm.ptr + p.bm.size ≤ a)
    → load32 m a ≡ load32 n a
load32-same p m n a same apart =
    load32-ext m n a (same a (omega arith)) (same (a + 1) (omega arith))
      (same (a + 2) (omega arith)) (same (a + 3) (omega arith))

pub mmap_entry-same :
    (p : Pmm) (m n : Memory) (a : ℕ)
    → SameOutside p m n
    → (a + sizeof_entry ≤ p.bm.ptr) ⊎ (p.bm.ptr + p.bm.size ≤ a)
    → mmap_entry m a ≡ mmap_entry n a
unfolding mmap_entry
mmap_entry-same p m n a same apart =
    rw
      (
        load32-same p m n (a + 4) same (omega arith),
        load32-same p m n (a + 12) same (omega arith),
        load32-same p m n (a + 16) same (omega arith),
        load32-same p m n (a + 20) same (omega arith),
      )
      refl

set_unused_from-outside :
    (p : Pmm) (m : Memory) (base i n : ℕ) → SameOutside p (set_unused_from p m base i n) m
unfolding set_unused_from
set_unused_from-outside p m base i zero a out = refl
set_unused_from-outside p m base i (suc n) a out =
    set_unused_from-outside p (clear_bit m p.bm (u32 (base + i))).1 base (i + 1) n a out
    ∙ (clear_bit_lem m p.bm (u32 (base + i))).2 a out

pub set_unused-outside :
    (p : Pmm) (m : Memory) (addr size : ℕ) → SameOutside p (set_unused p m addr size) m
unfolding set_unused
set_unused-outside p m addr size =
    set_unused_from-outside p m (addr / frame_size) 0 (region_frames size)

set_used_from-outside :
    (p : Pmm) (m : Memory) (base i n : ℕ) → SameOutside p (set_used_from p m base i n) m
unfolding set_used_from
set_used_from-outside p m base i zero a out = refl
set_used_from-outside p m base i (suc n) a out =
    set_used_from-outside p (set_bit m p.bm (u32 (base + i))).1 base (i + 1) n a out
    ∙ (set_bit_lem m p.bm (u32 (base + i))).2 a out

pub set_used-outside :
    (p : Pmm) (m : Memory) (addr size : ℕ) → SameOutside p (set_used p m addr size) m
unfolding set_used
set_used-outside p m addr size =
    set_used_from-outside p m (addr / frame_size) 0 (region_frames size)
