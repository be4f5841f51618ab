-- ===== src/Gdt/Segments.antt =====
-- The segments that the processor reads from the table.
use lkd.Prelude.{ℕ, ◌+◌, ◌-◌, ◌*◌, ◌/◌, ◌%◌, ◌^◌, ◌<◌, bit_and, ◌≡◌, refl, arith, ◌>>>◌}
use lkd.Bits.Fields.{bit_and-low, bit_or-high_low}
use lkd.Gdt.{Descriptor, gdt_segment_descriptor, gdt_setup}

-- The fields as the processor puts them together.
abbrev pub segment_base : Descriptor → ℕ
segment_base d = d.base_low + d.base_mid * 2 ^ 16 + d.base_high * 2 ^ 24

abbrev pub segment_limit : Descriptor → ℕ
segment_limit d = d.limit_low + d.flags % 16 * 2 ^ 16

abbrev pub granularity : Descriptor → ℕ
granularity d = d.flags / 2 ^ 7 % 2

-- The last address of a segment, relative to its base.
abbrev pub last_offset : Descriptor → ℕ
last_offset d = (segment_limit d + 1) * 2 ^ (12 * granularity d) - 1

abbrev pub privilege : Descriptor → ℕ
privilege d = d.access / 2 ^ 5 % 4

-- A descriptor gives back the base, the low 20 bits of the limit, and the access byte and the four
-- flags that it was made from.
pub gdt_segment_descriptor_lem :
    (base limit access flags : ℕ)
    → base < 2 ^ 32
    → access < 2 ^ 8
    → (segment_base (gdt_segment_descriptor base limit access flags) ≡ base)
      × (segment_limit (gdt_segment_descriptor base limit access flags) ≡ limit % 2 ^ 20)
      × ((gdt_segment_descriptor base limit access flags).access ≡ access)
      × ((gdt_segment_descriptor base limit access flags).flags / 16 ≡ flags % 16)
unfolding gdt_segment_descriptor
gdt_segment_descriptor_lem base limit access flags hb ha =
    let nibbles =
      bit_or-high_low 4 (bit_and flags 15) (bit_and (limit >>> 16) 15)
        (omega (arith, bit_and-low 4 (limit >>> 16))) in
    omega (
      arith,
      bit_and-low 16 limit,
      bit_and-low 16 (base % 2 ^ 32),
      bit_and-low 8 ((base % 2 ^ 32) >>> 16),
      bit_and-low 8 ((base % 2 ^ 32) >>> 24),
      bit_and-low 4 flags,
      bit_and-low 4 (limit >>> 16),
      nibbles,
    )

-- A segment over all of the 4 GiB.
abbrev pub IsFlat : Descriptor → Type 0
IsFlat d = (segment_base d ≡ 0) × (last_offset d ≡ 2 ^ 32 - 1)

-- The table that `gdt_init` sets up has flat segments, of privilege 0 for the kernel and 3 for
-- programs, and a task segment that covers the task state; the processor enters the kernel on its
-- stack and with its data segment. The addresses given are 32 bits wide.
pub gdt_setup_lem :
    (gdt_address tss_address stack_top : ℕ)
    → tss_address < 2 ^ 32
    → stack_top < 2 ^ 32
    → (IsFlat ((gdt_setup gdt_address tss_address stack_top).kernel_code)
        × IsFlat ((gdt_setup gdt_address tss_address stack_top).kernel_data)
        × IsFlat ((gdt_setup gdt_address tss_address stack_top).user_code)
        × IsFlat ((gdt_setup gdt_address tss_address stack_top).user_data))
      × ((privilege ((gdt_setup gdt_address tss_address stack_top).kernel_code) ≡ 0)
          × (privilege ((gdt_setup gdt_address tss_address stack_top).kernel_data) ≡ 0)
          × (privilege ((gdt_setup gdt_address tss_address stack_top).user_code) ≡ 3)
          × (privilege ((gdt_setup gdt_address tss_address stack_top).user_data) ≡ 3))
      × (segment_base ((gdt_setup gdt_address tss_address stack_top).tss_descriptor) ≡ tss_address)
      × (last_offset ((gdt_setup gdt_address tss_address stack_top).tss_descriptor) ≡ 103)
      × ((gdt_setup gdt_address tss_address stack_top).tss.esp0 ≡ stack_top)
      × ((gdt_setup gdt_address tss_address stack_top).tss.ss0 ≡ 8 * 2)
unfolding gdt_setup gdt_segment_descriptor
gdt_setup_lem gdt_address tss_address stack_top ht hs = (
  ((refl, refl), (refl, refl), (refl, refl), (refl, refl)),
  (refl, refl, refl, refl),
  (gdt_segment_descriptor_lem tss_address 103 0x89 0 ht (omega arith)).0,
  refl,
  omega arith,
  refl,
)
