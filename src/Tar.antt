-- ===== src/Tar.antt =====
-- src/utils/tar.cpp and src/utils/includes/tar.hpp: the size field of an entry's header, and
-- where the next header is. `parse_tar` is in Tar/Parse.
pub mod Size
pub mod Parse
mod Tests
use lkd.Prelude.{ℕ, zero, suc, ◌+◌, ◌-◌, ◌*◌, ◌/◌, ◌%◌, ◌^◌, ltb, ◌==◌, if◌then◌else◌, u32}
use lkd.Memory.{Memory}

-- `in[j - 1] - '0'` as an `unsigned int`; a `char` is signed.
unfoldable pub digit : ℕ → ℕ
digit c = if ltb c 128 then u32 (c + 2 ^ 32 - b'0') else u32 (c + 2 ^ 32 - 256 + 2 ^ 32 - b'0')

-- The loop of `getsize`, at `j`.
unfoldable pub getsize_from : Memory → ℕ → ℕ → ℕ → ℕ → ℕ
getsize_from m text zero count size = size
getsize_from m text (suc j) count size =
    getsize_from m text j (u32 (count * 8)) (u32 (size + u32 (digit (m (text + j)) * count)))

unfoldable pub getsize : Memory → ℕ → ℕ
getsize m text = getsize_from m text 11 1 0

-- The offset of `size` in a `TarEntry`.
abbrev pub size_offset : ℕ
size_offset = 124

-- The end of the loop of `parse_tar`: the address of the header behind the entry at `address`.
unfoldable pub next_header : ℕ → ℕ → ℕ
next_header address size =
    let after = u32 (address + u32 ((size / 512 + 1) * 512)) in
    if size % 512 == 0 then after else u32 (after + 512)
