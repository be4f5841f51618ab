-- ===== src/Bitmap.antt =====
-- src/utils/bitmap.cpp and src/utils/includes/bitmap.hpp: a bitmap over bytes that it does not
-- own. `ptr` is `_bitmap`, `size` is `_size`, in bytes; the bytes are the memory's. An operation
-- that writes returns the new memory.
pub mod Laws
pub mod Scan
mod Tests
use lkd.Prelude.{
  ℕ, zero, suc, ◌+◌, ◌-◌, ◌/◌, ◌%◌, ◌^◌, bit_and, bit_or, Bool, true, false, not, Option, none,
  some, leb, ◌==◌, if◌then◌else◌, u8, u32, ◌<<<◌, complement,
}
use lkd.Memory.{Memory, store8}

pub record Bitmap : Type 0 where
  pub ptr : ℕ
  pub size : ℕ

-- `Bitmap(uint8_t* bitmap, size_t size)`: `size` counts bits. `size + 7` is a `size_t` sum.
unfoldable pub bitmap : ℕ → ℕ → Bitmap
bitmap ptr size = record { ptr = ptr; size = u32 (size + 7) / 8 }

module _ (m : Memory) (b : Bitmap) where
  unfoldable pub get_bit : ℕ → Bool
  get_bit i =
      let bitmap_index = i / 8 in
      let bitmap_offset = i % 8 in
      if leb b.size bitmap_index
      then false
      else not (bit_and (m (b.ptr + bitmap_index)) (1 <<< bitmap_offset) == 0)

  unfoldable pub set_bit : ℕ → Bool × Memory
  set_bit i =
      let bitmap_index = i / 8 in
      let bitmap_offset = i % 8 in
      let address = b.ptr + bitmap_index in
      if leb b.size bitmap_index
      then (false, m)
      else (true, store8 m address (u8 (bit_or (m address) (1 <<< bitmap_offset))))

  unfoldable pub clear_bit : ℕ → Bool × Memory
  clear_bit i =
      let bitmap_index = i / 8 in
      let bitmap_offset = i % 8 in
      let address = b.ptr + bitmap_index in
      if leb b.size bitmap_index
      then (false, m)
      else (true, store8 m address (u8 (bit_and (m address) (complement (1 <<< bitmap_offset)))))

  -- The loop of `set_first_free` at index `i`, with `rounds` indices left; `none` is the -1.
  unfoldable pub first_free_from : ℕ → ℕ → Option ℕ
  first_free_from zero i = none
  first_free_from (suc rounds) i =
      let rest = first_free_from rounds (i + 1) in if get_bit i then rest else some i

  unfoldable pub set_first_free : Option ℕ × Memory
  set_first_free = elim (first_free_from b.size 0) [
    | none ↦ (none, m)
    | some i ↦ (some i, (set_bit i).1)
  ]

  -- The loop of `is_empty` at byte `i`, with `rounds` bytes left.
  unfoldable pub is_empty_from : ℕ → ℕ → Bool
  is_empty_from zero i = true
  is_empty_from (suc rounds) i =
      let rest = is_empty_from rounds (i + 1) in if m (b.ptr + i) == 0 then rest else false

  unfoldable pub is_empty : Bool
  is_empty = is_empty_from b.size 0
