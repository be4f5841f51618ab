-- ===== src/Ports.antt =====
-- src/includes/io.hpp: the I/O ports. What is written is kept in order, oldest first; what is read
-- comes from the hardware, which is no part of the source: a function `input` of how many reads came
-- before and of the port.
use lkd.Prelude.{ℕ, ◌+◌, List, [], ◌∷◌, ◌++◌, u8}

pub record Ports : Type 0 where
  pub written : List (ℕ × ℕ)
  pub reads : ℕ

unfoldable pub outb : ℕ → ℕ → Ports → Ports
outb port value io = record io { written = io.written ++ (port, u8 value) ∷ [] }

unfoldable pub inb : (ℕ → ℕ → ℕ) → ℕ → Ports → ℕ × Ports
inb input port io = (u8 (input io.reads port), record io { reads = io.reads + 1 })
