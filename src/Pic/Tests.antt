-- ===== src/Pic/Tests.antt =====
-- The controllers at the start, and the end of interrupt 12.
use lkd.Prelude.{[], ◌∷◌, ◌≡◌, refl}
use lkd.Ports.{Ports, outb}
use lkd.Pic.{pic_send_eoi}

abbrev silent : Ports
silent = record { written = []; reads = 0 }

pic_send_eoi-slave : (pic_send_eoi 12 silent).written ≡ (0xA0, 0x20) ∷ (0x20, 0x20) ∷ []
unfolding pic_send_eoi outb
pic_send_eoi-slave = refl
