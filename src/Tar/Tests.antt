-- ===== src/Tar/Tests.antt =====
-- The size field of a file of 1000 bytes.
use lkd.Prelude.{
  ℕ, ◌+◌, ◌%◌, ◌^◌, List, codes, get_or, leb, ◌&&◌, true, passes, passes_lem, ◌≡◌, refl, arith,
}
use lkd.Memory.{Memory}
use lkd.Tar.{digit, getsize_from, getsize}
use lkd.Tar.Size.{octal, IsOctal, getsize_lem}

abbrev field : List ℕ
field = codes "00000001750"

abbrev memory : Memory
memory a = get_or field a 0

getsize_1000 : getsize memory 0 ≡ 1000
unfolding getsize getsize_from digit
getsize_1000 = refl

field_table : passes (λ i. leb b'0' (memory (0 + i)) && leb (memory (0 + i)) b'7') 11 ≡ true
unfolding passes
field_table = refl

field-IsOctal : IsOctal memory 0 11
field-IsOctal i below =
    let digit_at =
      passes_lem (λ j. leb b'0' (memory (0 + j)) && leb (memory (0 + j)) b'7') 11 field_table i
        below in
    (ground (arith, digit_at), ground (arith, digit_at))

getsize_lem_example : getsize memory 0 ≡ octal memory 0 11 % 2 ^ 32
getsize_lem_example = getsize_lem memory 0 field-IsOctal
