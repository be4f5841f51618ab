-- ===== src/Kernel.antt =====
-- What the parts that boot the kernel and start its processes share: memory, the frame allocator
-- `pmm::PMM` of src/pmm/includes/pmm.hpp, the buckets of the heap, the processes with `cr3`, and the
-- serial line that all of them log to. `none` is a fault: an access to an address that the
-- directory in `cr3` does not map, what C++ leaves undefined, or a serial line that does not answer.
pub mod Logs
pub mod Sample
use lkd.Prelude.{ℕ, List, Option, none, some}
use lkd.Memory.{Memory}
use lkd.Printing.{Printer, M, Arg}
use lkd.Serial
use lkd.Serial.{Serial}
use lkd.Pmm.{Pmm}
use lkd.Kmalloc.Malloc.{Buckets}
use lkd.Process.{Scheduler}

pub record Kernel : Type 0 where
  pub memory : Memory
  pub pmm : Pmm
  pub heap : Buckets
  pub scheduler : Scheduler
  pub serial : Printer Serial

abbrev pub K : Type 0 → Type 0
K A = Kernel → Option (A × Kernel)

module _ {A : Type 0} where
  abbrev pub pure : A → K A
  pure a k = some (a, k)

  abbrev pub fault : K A
  fault k = none

  abbrev pub gets : (Kernel → A) → K A
  gets f k = some (f k, k)

abbrev pub modify : (Kernel → Kernel) → K (Unit {0})
modify f k = some (tt, f k)

infixl 5 ◌>>=◌ ◌>>◌
abbrev pub ◌>>=◌ : {A B : Type 0} → K A → (A → K B) → K B
◌>>=◌ m f k = elim (m k) [ none ↦ none | some (a, k') ↦ f a k' ]

abbrev pub ◌>>◌ : {B : Type 0} → K (Unit {0}) → K B → K B
m >> n = m >>= λ _. n

-- A call on the serial line.
abbrev pub on_serial : {A : Type 0} → M Serial A → K A
on_serial print k = elim (print k.serial) [
  | none ↦ none
  | some (a, p) ↦ some (a, record k { serial = p })
]

module _ (input : ℕ → ℕ → ℕ) (fuel : ℕ) where
  -- `s.kprintf(fmt, ...)`
  abbrev pub log : List ℕ → List Arg → K (Unit {0})
  log fmt args = on_serial (Serial.kprintf input fuel fmt args)

  -- `s.write_str(str)`
  abbrev pub log_str : List ℕ → K (Unit {0})
  log_str str = on_serial (Serial.write_str input fuel str) >>= λ _. pure tt
