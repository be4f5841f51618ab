-- ===== src/Timer/Reload.antt =====
-- The reload value of channel 0, which has 16 bits.
use native.Mathlib.Nat.{le-div_iff_mul-le}
use mathlib.Core.List.{append_assoc}
use lkd.Prelude.{
  ℕ, ◌/◌, ◌%◌, ◌^◌, ◌≤◌, ◌<◌, List, [], ◌∷◌, ◌++◌, some, true, false, bit_and, u8, ◌>>>◌, ◌≡◌, refl,
  arith,
}
use lkd.Bits.Fields.{bit_and-low}
use lkd.Ports.{outb}
use lkd.Timer.{Pit, pit}

-- The command, and the two bytes of a reload value, the low one first.
abbrev pub reload_writes : ℕ → List (ℕ × ℕ)
reload_writes value = (0x43, 0x36) ∷ (0x40, value % 256) ∷ (0x40, value / 256) ∷ []

-- The first construction at a frequency above 0 starts at tick 0 and loads the quotient of the PIT's
-- frequency by it, cut to 16 bits.
pub pit_loads :
    (freq : ℕ) (t : Pit)
    → t.init ≡ false
    → 0 < freq
    → (t' : Pit) × (pit freq t ≡ some t')
      × (t'.ticks ≡ 0)
      × (t'.ports.written ≡ t.ports.written ++ reload_writes (1193180 / freq % 2 ^ 16))
unfolding pit outb
pit_loads freq t off pos =
    let d : ℕ = 1193180 / freq in
    let low : u8 (bit_and d 0xFF) ≡ d % 2 ^ 16 % 256 = omega (arith, bit_and-low 8 d) in
    let high : u8 (bit_and (d >>> 8) 0xFF) ≡ d % 2 ^ 16 / 256 =
      omega (arith, bit_and-low 8 (d >>> 8)) in
    (
      record {
        init = true;
        ticks = 0;
        ports =
            outb 0x40 (bit_and (d >>> 8) 0xFF)
              (outb 0x40 (bit_and d 0xFF) (outb 0x43 0x36 t.ports));
      },
      ground arith,
      refl,
      rw (low, high) (simp append_assoc),
    )

-- Below 19 Hz the quotient does not fit 16 bits: what is loaded is less than it, so the timer runs
-- faster than it was asked to.
pub pit_too_slow :
    (freq : ℕ) (t : Pit)
    → t.init ≡ false
    → 0 < freq
    → freq < 19
    → (t' : Pit) × (value : ℕ) × (pit freq t ≡ some t')
      × (t'.ports.written ≡ t.ports.written ++ reload_writes value)
      × (value < 1193180 / freq)
pit_too_slow freq t off pos slow =
    let loaded = pit_loads freq t off pos in
    let large : 65536 ≤ 1193180 / freq =
      (le-div_iff_mul-le {x = 65536} {y = 1193180} pos).1 (omega arith) in
    (loaded.0, 1193180 / freq % 2 ^ 16, loaded.1, loaded.3, omega arith)
