-- ===== src/Paging/Entries.antt =====
-- The two fields of a page entry: the frame's address above, twelve bits of flags below.
use lkd.Prelude.{ℕ, ◌+◌, ◌-◌, ◌*◌, ◌/◌, ◌%◌, ◌^◌, ◌<◌, bit_and, u16, complement, ◌≡◌, ◌∙◌, arith}
use lkd.Bits.Fields.{bit_and-low, bit_and-high, bit_or-high_low}
use lkd.Paging.{page_entry}

-- `value & ~0xFFF`
pub page_mask : (a : ℕ) → a < 2 ^ 32 → bit_and a (complement 0xFFF) ≡ a / 4096 * 4096
page_mask a h = omega (arith, bit_and-high 12 a (2 ^ 20 - 1), bit_and-low 20 (a / 2 ^ 12))

-- An entry is the frame's address with the low twelve bits of the flags in place of its offset.
pub page_entry_lem :
    (value flags : ℕ) → value < 2 ^ 32 → page_entry value flags ≡ value / 4096 * 4096 + flags % 4096
unfolding page_entry
page_entry_lem value flags h =
    rw (page_mask value h, bit_and-low 12 (u16 flags))
      (bit_or-high_low 12 (value / 4096) (u16 flags % 2 ^ 12) (omega arith) ∙ omega arith)
