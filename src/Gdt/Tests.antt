-- ===== src/Gdt/Tests.antt =====
-- The table of a kernel linked at 0xC0100000.
use lkd.Prelude.{◌*◌, ◌≡◌, refl, arith}
use lkd.Gdt.{gdt_segment_descriptor, descriptor_value, gdt_setup}
use lkd.Gdt.Segments.{segment_base, last_offset, privilege, IsFlat, gdt_setup_lem}

kernel_code_value :
    descriptor_value (gdt_segment_descriptor 0 0xFFFFF 0x9A 0xC) ≡ 0x00CF9A000000FFFF
unfolding descriptor_value gdt_segment_descriptor
kernel_code_value = refl

gdt_setup_lem_example :
    (IsFlat ((gdt_setup 0xC0104000 0xC0104560 0xC0108000).kernel_code)
      × IsFlat ((gdt_setup 0xC0104000 0xC0104560 0xC0108000).kernel_data)
      × IsFlat ((gdt_setup 0xC0104000 0xC0104560 0xC0108000).user_code)
      × IsFlat ((gdt_setup 0xC0104000 0xC0104560 0xC0108000).user_data))
    × ((privilege ((gdt_setup 0xC0104000 0xC0104560 0xC0108000).kernel_code) ≡ 0)
        × (privilege ((gdt_setup 0xC0104000 0xC0104560 0xC0108000).kernel_data) ≡ 0)
        × (privilege ((gdt_setup 0xC0104000 0xC0104560 0xC0108000).user_code) ≡ 3)
        × (privilege ((gdt_setup 0xC0104000 0xC0104560 0xC0108000).user_data) ≡ 3))
    × (segment_base ((gdt_setup 0xC0104000 0xC0104560 0xC0108000).tss_descriptor) ≡ 0xC0104560)
    × (last_offset ((gdt_setup 0xC0104000 0xC0104560 0xC0108000).tss_descriptor) ≡ 103)
    × ((gdt_setup 0xC0104000 0xC0104560 0xC0108000).tss.esp0 ≡ 0xC0108000)
    × ((gdt_setup 0xC0104000 0xC0104560 0xC0108000).tss.ss0 ≡ 8 * 2)
gdt_setup_lem_example = gdt_setup_lem 0xC0104000 0xC0104560 0xC0108000 (omega arith) (omega arith)
