-- ===== src/Paging/Access.antt =====
-- How the kernel reaches memory at an address: its own quarter is the direct map, and what lies
-- below it is what the directory in `cr3` maps there.
use mathlib.Core.Option
use lkd.Prelude.{ℕ, zero, suc, ◌+◌, Option, none, some, leb, if◌then◌else◌}
use lkd.Memory.{Memory, store8, p2v, kernel_offset}
use lkd.Paging.Walk.{walk}

-- Where the byte at an address stands in the direct map; `none` is a page fault.
unfoldable pub translate : Memory → ℕ → ℕ → Option ℕ
translate m pd a = if leb kernel_offset a then some a else Option.map p2v (walk m pd a)

-- `memcpy` to an address that the directory at `pd` maps, from the kernel's quarter, at index `i`.
unfoldable pub copy_to_from : ℕ → ℕ → ℕ → ℕ → ℕ → Memory → Option Memory
copy_to_from pd dst src i zero m = some m
copy_to_from pd dst src i (suc rounds) m = elim (translate m pd (dst + i)) [
  | none ↦ none
  | some a ↦ copy_to_from pd dst src (i + 1) rounds (store8 m a (m (src + i)))
]

unfoldable pub copy_to : ℕ → ℕ → ℕ → ℕ → Memory → Option Memory
copy_to pd dst src size m = copy_to_from pd dst src 0 size m
