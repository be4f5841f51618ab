-- ===== src/Strings.antt =====
-- src/utils/string.cpp: the byte loops. A pointer is its address; a loop's index `i` is a `size_t`
-- that counts up to `size`, so it does not wrap. The address of a byte is not cut to 32 bits, so a
-- block that runs past 4 GiB is not modelled.
pub mod Blocks
pub mod Compare
mod Tests
use lkd.Prelude.{
  ℕ, zero, suc, ◌+◌, ◌-◌, ◌*◌, ◌/◌, ◌%◌, ◌^◌, Bool, ltb, leb, ◌==◌, ◌&&◌, not, if◌then◌else◌, u8,
  Option, none, some,
}
use lkd.Prelude.Int.{ℤ, pos, negsuc, ◌-ℤ◌}
use lkd.Memory.{Memory, store8}

-- The loop of `memcpy`, and the first one of `memmove`, at index `i`.
unfoldable pub copy_up_from : Memory → ℕ → ℕ → ℕ → ℕ → Memory
copy_up_from m dst src i zero = m
copy_up_from m dst src i (suc rounds) =
    copy_up_from (store8 m (dst + i) (m (src + i))) dst src (i + 1) rounds

-- The second loop of `memmove`: `i` bytes left, the last of them next.
unfoldable pub copy_down_from : Memory → ℕ → ℕ → ℕ → Memory
copy_down_from m dst src zero = m
copy_down_from m dst src (suc i) = copy_down_from (store8 m (dst + i) (m (src + i))) dst src i

unfoldable pub memcpy : Memory → ℕ → ℕ → ℕ → Memory
memcpy m dst src size = copy_up_from m dst src 0 size

unfoldable pub memset_from : Memory → ℕ → ℕ → ℕ → ℕ → Memory
memset_from m dst val i zero = m
memset_from m dst val i (suc rounds) =
    memset_from (store8 m (dst + i) (u8 val)) dst val (i + 1) rounds

unfoldable pub memset : Memory → ℕ → ℕ → ℕ → Memory
memset m dst val size = memset_from m dst val 0 size

-- The pointer that `memmove` returns is `dst`.
unfoldable pub memmove : Memory → ℕ → ℕ → ℕ → ℕ × Memory
memmove m dst src size =
    (dst, if ltb dst src then copy_up_from m dst src 0 size else copy_down_from m dst src size)

-- A `char` is signed on this target.
abbrev pub char : ℕ → ℤ
char b = if ltb b 128 then pos b else negsuc (255 - b)

-- The loop of `strcmp` with fuel; `none` means that the fuel ran out.
unfoldable pub strcmp_from : Memory → ℕ → ℕ → ℕ → ℕ → Option ℤ
strcmp_from m one two zero i = none
strcmp_from m one two (suc fuel) i =
    let rest = strcmp_from m one two fuel (i + 1) in
    if not (m (one + i) == 0) && m (one + i) == m (two + i)
    then rest
    else some (char (m (one + i)) -ℤ char (m (two + i)))

unfoldable pub strcmp : Memory → ℕ → ℕ → ℕ → Option ℤ
strcmp m one two fuel = strcmp_from m one two fuel 0

unfoldable pub memcmp_from : Memory → ℕ → ℕ → ℕ → ℕ → ℤ
memcmp_from m one two i zero = pos 0
memcmp_from m one two i (suc rounds) =
    let rest = memcmp_from m one two (i + 1) rounds in
    if ltb (m (one + i)) (m (two + i))
    then negsuc 0
    else if ltb (m (two + i)) (m (one + i))
    then pos 1
    else rest

unfoldable pub memcmp : Memory → ℕ → ℕ → ℕ → ℤ
memcmp m one two size = memcmp_from m one two 0 size
