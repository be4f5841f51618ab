-- ===== src/Pic/Remap.antt =====
-- What the controllers are told: the writes that each of them gets.
use mathlib.Core.List.{append_assoc, append-nil}
use lkd.Prelude.{
  ℕ, List, [], ◌∷◌, ◌++◌, true, leb, ◌==◌, ◌||◌, if◌then◌else◌, ◌≡◌, refl, ap, arith, u8, ◌∙◌,
  Bool-cases, inl, inr,
}
use lkd.Ports.{Ports, outb}
use lkd.Pic.{
  Pic, pic, remap, pic_send_eoi, pic_master_command, pic_slave_command, pic_master_data,
  pic_slave_data,
}

-- The values written to a controller's two ports, oldest first.
abbrev pub to_ports : ℕ → ℕ → List (ℕ × ℕ) → List ℕ
to_ports command info [] = []
to_ports command info ((port, value) ∷ rest) =
    (if port == command || port == info then value ∷ [] else []) ++ to_ports command info rest

pub to_ports-append :
    (command info : ℕ) (xs ys : List (ℕ × ℕ))
    → to_ports command info (xs ++ ys) ≡ to_ports command info xs ++ to_ports command info ys
to_ports-append command info [] ys = refl
to_ports-append command info ((port, value) ∷ xs) ys =
    rw (to_ports-append command info xs ys, append_assoc)

abbrev pub to_master : Ports → List ℕ
to_master io = to_ports pic_master_command pic_master_data io.written

abbrev pub to_slave : Ports → List ℕ
to_slave io = to_ports pic_slave_command pic_slave_data io.written

to_ports-outb :
    (command info port value : ℕ) (io : Ports)
    → to_ports command info (outb port value io).written
      ≡ to_ports command info io.written
        ++ (if port == command || port == info then u8 value ∷ [] else [])
unfolding outb
to_ports-outb command info port value io =
    to_ports-append command info io.written ((port, u8 value) ∷ [])
    ∙ ap (λ t. to_ports command info io.written ++ t) (append-nil _)

to_master-remap :
    (io : Ports) → to_master (remap io) ≡ to_master io ++ 0x11 ∷ 0x20 ∷ 0x04 ∷ 0x01 ∷ 0x00 ∷ []
unfolding remap
to_master-remap io = simp (to_ports-outb, append_assoc, append-nil)

to_slave-remap :
    (io : Ports) → to_slave (remap io) ≡ to_slave io ++ 0x11 ∷ 0x28 ∷ 0x02 ∷ 0x01 ∷ 0x00 ∷ []
unfolding remap
to_slave-remap io = simp (to_ports-outb, append_assoc, append-nil)

-- The first construction sends each controller its four initialisation words in order (ICW1, its
-- vector offset, its wiring, ICW4) and then an empty mask; every later one sends nothing.
pub pic_remaps :
    (s : Pic)
    → ((pic s).init ≡ true)
      × (to_master (pic s).ports
          ≡ to_master s.ports ++ (if s.init then [] else 0x11 ∷ 0x20 ∷ 0x04 ∷ 0x01 ∷ 0x00 ∷ []))
      × (to_slave (pic s).ports
          ≡ to_slave s.ports ++ (if s.init then [] else 0x11 ∷ 0x28 ∷ 0x02 ∷ 0x01 ∷ 0x00 ∷ []))
unfolding pic
pic_remaps s = ground (
  arith,
  to_master-remap s.ports,
  to_slave-remap s.ports,
  append-nil (to_master s.ports),
  append-nil (to_slave s.ports),
)

-- The end of an interrupt goes to the master for every line, and to the slave for its eight lines.
pub pic_send_eoi_lem :
    (irq : ℕ) (io : Ports)
    → (to_master (pic_send_eoi irq io) ≡ to_master io ++ 0x20 ∷ [])
      × (to_slave (pic_send_eoi irq io) ≡ to_slave io ++ (if leb 8 irq then 0x20 ∷ [] else []))
unfolding pic_send_eoi
pic_send_eoi_lem irq io = elim (Bool-cases (leb 8 irq)) [
  | inl slave ↦ rw slave (
    simp (to_ports-outb, append_assoc, append-nil),
    simp (to_ports-outb, append_assoc, append-nil),
  )
  | inr master ↦ rw master (
    simp (to_ports-outb, append_assoc, append-nil),
    simp (to_ports-outb, append_assoc, append-nil),
  )
]
