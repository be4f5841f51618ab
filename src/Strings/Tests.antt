-- ===== src/Strings/Tests.antt =====
-- Copies inside one block, and comparisons of short strings.
use lkd.Prelude.{ℕ, ◌≡◌, refl, arith, some}
use lkd.Prelude.Int.{pos, negsuc, ◌-ℤ◌}
use lkd.Memory.{Memory, store8, IsBytes}
use lkd.Strings.{memmove, strcmp, strcmp_from, memcmp, memcmp_from, copy_up_from, copy_down_from}
use lkd.Strings.Blocks.{copied, memmove_lem}
use lkd.Strings.Compare.{IsString, Decides, strcmp-Decides}

-- "abc" at 10 and "abd" at 20; every other byte is 0.
abbrev memory : Memory
memory =
    store8 (store8 (store8 (store8 (store8 (store8 (λ a. 0) 10 97) 11 98) 12 99) 20 97) 21 98) 22
      100

memory-IsBytes : IsBytes memory
memory-IsBytes a = ground arith

memmove_overlap : (memmove memory 11 10 3).1 13 ≡ 99
unfolding memmove copy_down_from copy_up_from
memmove_overlap = refl

strcmp-abc : strcmp memory 10 20 4 ≡ some (negsuc 0)
unfolding strcmp strcmp_from ◌-ℤ◌
strcmp-abc = refl

memcmp-abc : memcmp memory 20 10 3 ≡ pos 1
unfolding memcmp memcmp_from
memcmp-abc = refl

memmove_lem_example :
    ((memmove memory 11 10 3).0 ≡ 11)
    × ((a : ℕ) → (memmove memory 11 10 3).1 a ≡ copied memory 11 10 3 a)
memmove_lem_example = memmove_lem memory 11 10 3

memory-IsString : IsString memory 10 3
memory-IsString = (refl, λ i h. ground arith)

strcmp-Decides_example :
    Decides memory memory-IsBytes 10 20 3 memory-IsString 0 (strcmp memory 10 20 4)
strcmp-Decides_example =
    strcmp-Decides memory memory-IsBytes 10 20 3 memory-IsString 4 (omega arith)
