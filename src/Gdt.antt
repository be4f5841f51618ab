-- ===== src/Gdt.antt =====
-- src/gdt/gdt.cpp and src/gdt/includes/gdt.hpp: the segments and the task state. The addresses
-- that the linker gives (`&gdt`, `&tss`, `&stack_top`) are parameters. `gdt_load` and `tss_load`,
-- which are assembly, load what is here into the processor's registers.
pub mod Segments
pub mod Logs
mod Tests
use lkd.Prelude.{
  ℕ, ◌+◌, ◌-◌, ◌*◌, ◌/◌, ◌%◌, ◌^◌, List, [], ◌∷◌, bit_and, bit_or, u8, u16, u32, ◌<<<◌, ◌>>>◌,
  codes,
}
use lkd.Printing.{M, pure, ◌>>◌, word, long}
use lkd.Serial
use lkd.Serial.{Serial}

pub record Descriptor : Type 0 where
  pub limit_low : ℕ
  pub base_low : ℕ
  pub base_mid : ℕ
  pub access : ℕ
  pub flags : ℕ
  pub base_high : ℕ

-- `GDT_SEGMENT_DESCRIPTOR`
unfoldable pub gdt_segment_descriptor : ℕ → ℕ → ℕ → ℕ → Descriptor
gdt_segment_descriptor base limit access flags = record {
  limit_low = u16 (bit_and limit 0xFFFF);
  base_low = u16 (bit_and (u32 base) 0xFFFF);
  base_mid = u8 (bit_and (u32 base >>> 16) 0xFF);
  access = u8 access;
  flags = u8 (bit_or (bit_and flags 0xF <<< 4) (bit_and (limit >>> 16) 0xF));
  base_high = u8 (bit_and (u32 base >>> 24) 0xFF);
}

-- The eight bytes of a descriptor, as a `uint64_t`.
unfoldable pub descriptor_value : Descriptor → ℕ
descriptor_value d =
    d.limit_low
    + (d.base_low <<< 16)
    + (d.base_mid <<< 32)
    + (d.access <<< 40)
    + (d.flags <<< 48)
    + (d.base_high <<< 56)

pub record TssEntry : Type 0 where
  pub previous_task : ℕ
  pub esp0 : ℕ
  pub ss0 : ℕ
  pub esp1 : ℕ
  pub ss1 : ℕ
  pub esp2 : ℕ
  pub ss2 : ℕ
  pub cr3 : ℕ
  pub eip : ℕ
  pub eflags : ℕ
  pub eax : ℕ
  pub ecx : ℕ
  pub edx : ℕ
  pub ebx : ℕ
  pub esp : ℕ
  pub ebp : ℕ
  pub esi : ℕ
  pub edi : ℕ
  pub es : ℕ
  pub cs : ℕ
  pub ss : ℕ
  pub ds : ℕ
  pub fs : ℕ
  pub gs : ℕ
  pub ldt_selector : ℕ
  pub io_map_address : ℕ

abbrev pub sizeof_tss : ℕ
sizeof_tss = 104

-- What `memset` leaves.
abbrev pub zero_tss : TssEntry
zero_tss = record {
  previous_task = 0;
  esp0 = 0;
  ss0 = 0;
  esp1 = 0;
  ss1 = 0;
  esp2 = 0;
  ss2 = 0;
  cr3 = 0;
  eip = 0;
  eflags = 0;
  eax = 0;
  ecx = 0;
  edx = 0;
  ebx = 0;
  esp = 0;
  ebp = 0;
  esi = 0;
  edi = 0;
  es = 0;
  cs = 0;
  ss = 0;
  ds = 0;
  fs = 0;
  gs = 0;
  ldt_selector = 0;
  io_map_address = 0;
}

pub record Gdtr : Type 0 where
  pub limit : ℕ
  pub base : ℕ

pub record Gdt : Type 0 where
  pub null_descriptor : Descriptor
  pub kernel_code : Descriptor
  pub kernel_data : Descriptor
  pub user_code : Descriptor
  pub user_data : Descriptor
  pub tss_descriptor : Descriptor
  pub gdtr : Gdtr
  pub tss : TssEntry

abbrev pub gdt_entries : ℕ
gdt_entries = 6

module _ (gdt_address tss_address stack_top : ℕ) where
  -- The initialisers of `gdt`, and what `gdt_init` stores.
  unfoldable pub gdt_setup : Gdt
  gdt_setup = record {
    null_descriptor = gdt_segment_descriptor 0 0 0 0;
    kernel_code = gdt_segment_descriptor 0 0xFFFFF 0x9A 0xC;
    kernel_data = gdt_segment_descriptor 0 0xFFFFF 0x92 0xC;
    user_code = gdt_segment_descriptor 0 0xFFFFF 0xFA 0xC;
    user_data = gdt_segment_descriptor 0 0xFFFFF 0xF2 0xC;
    tss_descriptor = gdt_segment_descriptor tss_address (sizeof_tss - 1) 0x89 0x00;
    gdtr = record { limit = u16 (8 * gdt_entries - 1); base = gdt_address };
    tss = record zero_tss {
      cs = 0x0B;
      ss = 0x13;
      es = 0x13;
      ds = 0x13;
      fs = 0x13;
      gs = 0x13;
      ss0 = 0x10;
      esp0 = u32 stack_top;
    };
  }

  module _ (input : ℕ → ℕ → ℕ) (fuel : ℕ) where
    unfoldable pub gdt_init : M Serial Gdt
    gdt_init =
        let g = gdt_setup in
        Serial.kprintf input fuel (codes "[GDT] Entry: GDT address : %x\n") (word gdt_address ∷ [])
        >> Serial.kprintf input fuel (codes "[GDT] Entry: NULL Descriptor : %X\n")
            (long (descriptor_value g.null_descriptor) ∷ [])
        >> Serial.kprintf input fuel (codes "[GDT] Entry: Kernel Code Descriptor : %X\n")
            (long (descriptor_value g.kernel_code) ∷ [])
        >> Serial.kprintf input fuel (codes "[GDT] Entry: Kernel Data Descriptor : %X\n")
            (long (descriptor_value g.kernel_data) ∷ [])
        >> Serial.kprintf input fuel (codes "[GDT] Entry: User Code Descriptor : %X\n")
            (long (descriptor_value g.user_code) ∷ [])
        >> Serial.kprintf input fuel (codes "[GDT] Entry: User Data Descriptor : %X\n")
            (long (descriptor_value g.user_data) ∷ [])
        >> Serial.kprintf input fuel (codes "[GDT] Entry: TSS Descriptor : %X\n")
            (long (descriptor_value g.tss_descriptor) ∷ [])
        >> pure g
