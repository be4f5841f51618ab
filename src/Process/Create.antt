-- ===== src/Process/Create.antt =====
-- `Process::create_process` of src/userland/process.cpp. A process stands in a block of the heap; its
-- fields are kept beside the memory, in the list. `none` is a fault, a null block among them.
use lkd.Prelude.{ℕ, ◌+◌, [], ◌∷◌, ◌++◌, none, some, ◌==◌, if◌then◌else◌, u32}
use lkd.Memory.{p2v}
use lkd.Pmm.{null, allocate_frame}
use lkd.Paging.{copy, map_page, update_cr3}
use lkd.Kmalloc.Realloc.{calloc}
use lkd.Kernel.{Kernel, K, pure, modify, ◌>>=◌}
use lkd.Loader.Load.{Elf32, load}
use lkd.Process.{Process, Scheduler, zero_state}

-- `sizeof(class Process)`: eighteen words.
abbrev pub sizeof_process : ℕ
sizeof_process = 72

-- `PMM::getInstance().allocate_frame()`
unfoldable pub get_frame : K ℕ
get_frame k =
    let (frame, m) = allocate_frame k.pmm k.memory in some (frame, record k { memory = m })

-- The two pages of the stack, as they are mapped.
unfoldable pub map_stack : ℕ → ℕ → Kernel → Kernel
map_stack pd stack_ptr k =
    let first = map_page k.pmm k.memory pd stack_ptr 0xbfff0000 0x7 in
    record k { memory = map_page k.pmm first pd (u32 (stack_ptr + 0x1000)) 0xbfff1000 0x7 }

-- The address space of a process, and the frame of its kernel's stack.
unfoldable pub create_space : ℕ → K (ℕ × ℕ)
create_space kernel_pd = do
  pd ← λ k. let (page, m) = copy k.pmm k.memory kernel_pd in some (page, record k { memory = m })
  stack_ptr ← get_frame
  kernel_ptr ← get_frame
  _ ← modify (map_stack pd stack_ptr)
  pure (pd, kernel_ptr)

-- What is written into the fields of a new process.
unfoldable pub new_process : ℕ → ℕ → ℕ → Process
new_process pd kernel_ptr entry_point = record {
  page_directory = pd;
  regs = record zero_state {
    eip = entry_point;
    cs = 0x1B;
    user_esp = 0xbfff1000;
    user_ss = 0x23;
    ebp = 0xbfff0000;
    eflags = 0x202;
  };
  entrypoint = 0;
  kernel_stack_top = p2v (u32 (kernel_ptr + 0x1000));
}

-- The end of the list, or the first process, which is the current one then.
unfoldable pub add_process : Process → Scheduler → Scheduler
add_process p s = elim (s.processes) [
  | [] ↦ record s { processes = p ∷ []; current = some 0 }
  | q ∷ qs ↦ record s { processes = q ∷ qs ++ p ∷ [] }
]

-- The block of a process.
unfoldable pub allocate_process : ℕ → K ℕ
allocate_process heap_fuel k = elim (calloc k.pmm heap_fuel k.memory k.heap 1 sizeof_process) [
  | none ↦ none
  | some (block, heap, m) ↦
      if block == null then none else some (block, record k { heap = heap; memory = m })
]

abbrev pub set_cr3 : ℕ → K (Unit {0})
set_cr3 page = modify (λ k. record k { scheduler = record (k.scheduler) { cr3 = update_cr3 page } })

module _ (input : ℕ → ℕ → ℕ) (fuel heap_fuel local : ℕ) where
  -- The loaded file, with its entry point.
  unfoldable pub create_process : Elf32 → ℕ → K Elf32
  create_process elf kernel_pd = do
    space ← create_space kernel_pd
    _ ← set_cr3 (space.0)
    loaded ← load input fuel local elf (space.0)
    _ ← set_cr3 kernel_pd
    _ ← allocate_process heap_fuel
    _ ← modify (λ k. record k {
      scheduler = add_process (new_process (space.0) (space.1) loaded.entry_point) k.scheduler;
    })
    pure loaded
