-- ===== src/Kmalloc.antt =====
-- src/vmm/kmalloc_utils.cpp, src/vmm/includes/bucket.hpp and the slot that `free` of
-- src/vmm/kmalloc.cpp computes: where the kernel heap puts a block in the page of its bucket, and how
-- it finds the block's slot again. `size_t`, `int` and a pointer are 32 bits wide. `none` means that
-- the fuel of the loop ran out.
pub mod Power
pub mod Layout
pub mod Malloc
pub mod Added
pub mod Grants
pub mod Free
pub mod Freed
pub mod Realloc
pub mod Restored
pub mod Heap
mod Tests
use lkd.Prelude.{
  ℕ, zero, suc, ◌+◌, ◌-◌, ◌*◌, ◌/◌, ◌%◌, ◌^◌, Option, none, some, ltb, ◌==◌, if◌then◌else◌, u32,
  ◌<<<◌, bit_and,
}
use lkd.Bitmap.{Bitmap, bitmap}

pub record Bucket : Type 0 where
  pub next : ℕ
  pub size : ℕ
  pub power_size : ℕ
  pub bitmap : Bitmap

-- `sizeof(Bucket)`: five words, since the bitmap has two.
abbrev pub sizeof_bucket : ℕ
sizeof_bucket = 20

-- `sizeof(long double)` for a 32-bit x86 target.
abbrev pub sizeof_long_double : ℕ
sizeof_long_double = 12

-- The loop of `compute_power`; `out` is a `size_t`.
unfoldable pub compute_power_from : ℕ → ℕ → ℕ → Option ℕ
compute_power_from zero bytes out = none
compute_power_from (suc fuel) bytes out =
    let rest = compute_power_from fuel bytes (u32 (out <<< 1)) in
    if ltb out bytes then rest else some out

unfoldable pub compute_power : ℕ → ℕ → Option ℕ
compute_power fuel bytes = compute_power_from fuel bytes 16

-- The sum is checked as an `unsigned long long` of 64 bits, and cut to a `size_t` as the result.
unfoldable pub align : ℕ → ℕ → ℕ
align size align_to =
    let off = size % align_to in
    let out = size + (align_to - off) in
    if off == 0 then size else if ltb out (2 ^ 64) then u32 out else 0

-- The number of blocks that a bitmap is made for.
unfoldable pub bitmap_size : ℕ → ℕ → ℕ
bitmap_size size power_two =
    let slots = u32 (size + 2 ^ 32 - sizeof_bucket) / power_two in if slots == 0 then 1 else slots

-- The fields that `allocate_bucket` gives to a bucket at address `out`, for blocks of `size` bytes;
-- `slots` is an `int` that is positive.
unfoldable pub new_bucket : ℕ → ℕ → Bucket
new_bucket out size =
    let page_size : ℕ = 0x1000 in
    let new_size = align (u32 (size + sizeof_bucket)) page_size in
    let slots = bitmap_size new_size size in
    record {
      next = 0;
      size = new_size;
      power_size = size;
      bitmap = bitmap (out + sizeof_bucket) (if slots == 0 then 1 else slots);
    }

-- The start of block `i`.
unfoldable pub bitmap_offset : Bucket → ℕ → ℕ
bitmap_offset b i =
    let value = u32 (b.bitmap.ptr + u32 (b.bitmap.size + 7) / 8) in
    u32 (align value sizeof_long_double + u32 (i * b.power_size))

-- The page that a pointer points into.
unfoldable pub page_begin : ℕ → ℕ → ℕ
page_begin ptr page_size = let s = u32 (page_size + 2 ^ 32 - 1) in ptr - bit_and ptr s

-- `bit_offset` of `free`: the slot of the block at `ptr`.
unfoldable pub free_slot : Bucket → ℕ → ℕ
free_slot b ptr = u32 (ptr + 2 ^ 32 - b.bitmap.ptr + b.bitmap.size) / b.power_size
