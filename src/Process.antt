-- ===== src/Process.antt =====
-- `user::Process` of src/userland/process.cpp and src/interrupts/includes/interrupt_state.hpp:
-- the switch between processes. The linked list is a list in the order of `next`, and `current` a
-- place in it; the value in `cr3` is part of the state. `create_process` is in Process/Create.
pub mod RoundRobin
pub mod Create
pub mod Spaces
pub mod Refused
mod Tests
use lkd.Prelude.{
  ℕ, suc, ◌+◌, List, [], ◌∷◌, Option, none, some, Bool, true, false, ltb, if◌then◌else◌, length,
  get_or, set,
}
use lkd.Paging.{update_cr3}

pub record InterruptState : Type 0 where
  pub edi : ℕ
  pub esi : ℕ
  pub ebp : ℕ
  pub edx : ℕ
  pub ecx : ℕ
  pub ebx : ℕ
  pub eax : ℕ
  pub interrupt_number : ℕ
  pub error_code : ℕ
  pub eip : ℕ
  pub cs : ℕ
  pub eflags : ℕ
  pub user_esp : ℕ
  pub user_ss : ℕ

pub record Process : Type 0 where
  pub page_directory : ℕ
  pub regs : InterruptState
  pub entrypoint : ℕ
  pub kernel_stack_top : ℕ

-- What `calloc` leaves.
abbrev pub zero_state : InterruptState
zero_state = record {
  edi = 0;
  esi = 0;
  ebp = 0;
  edx = 0;
  ecx = 0;
  ebx = 0;
  eax = 0;
  interrupt_number = 0;
  error_code = 0;
  eip = 0;
  cs = 0;
  eflags = 0;
  user_esp = 0;
  user_ss = 0;
}

abbrev pub zero_process : Process
zero_process = record {
  page_directory = 0;
  regs = zero_state;
  entrypoint = 0;
  kernel_stack_top = 0;
}

pub record Scheduler : Type 0 where
  pub init : Bool
  pub processes : List Process
  pub current : Option ℕ
  pub cr3 : ℕ

-- The process at a place of the list.
abbrev pub process_at : List Process → ℕ → Process
process_at ps i = get_or ps i zero_process

-- `current->next ? current->next : processes`
unfoldable pub next_process : List Process → ℕ → ℕ
next_process ps i = if ltb (i + 1) (length ps) then i + 1 else 0

-- `memcpy(&current->regs, state, ...)`
unfoldable pub save : List Process → ℕ → InterruptState → List Process
save ps i state = set ps i (record (process_at ps i) { regs = state })

-- The switch from the process at `i`.
unfoldable pub switch_from : Scheduler → ℕ → InterruptState → InterruptState × Scheduler
switch_from s i state =
    let ps = save s.processes i state in
    let next = next_process ps i in
    let process = process_at ps next in
    (
      process.regs,
      record s { processes = ps; current = some next; cr3 = update_cr3 process.page_directory },
    )

-- The state that the interrupt returns to, and the scheduler.
unfoldable pub switch_process : InterruptState → Scheduler → InterruptState × Scheduler
switch_process state s = elim (s.current) [
  | none ↦ (state, s)
  | some i ↦ if s.init then switch_from s i state else (state, s)
]

unfoldable pub enable_scheduling : Scheduler → Scheduler
enable_scheduling s = record s { init = true }
