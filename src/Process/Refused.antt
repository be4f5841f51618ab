-- ===== src/Process/Refused.antt =====
-- What `create_process` makes of a file that `load` refuses.
use lkd.Prelude.{ℕ, List, [], ◌∷◌, Option, some, ◌≡◌, ◌≢◌}
use lkd.Memory.{Memory}
use lkd.Pmm.{null, allocate_frame}
use lkd.Paging.{copy, update_cr3}
use lkd.Kmalloc.Malloc.{Buckets}
use lkd.Kmalloc.Realloc.{calloc}
use lkd.Kernel.{Kernel}
use lkd.Process.{Process}
use lkd.Process.Create.{sizeof_process, map_stack}

-- The first process becomes the current one.
abbrev pub current_with : List Process → Option ℕ → Option ℕ
current_with [] current = some 0
current_with (q ∷ qs) current = current

-- The new directory, the frame of the kernel's stack, and the kernel behind `create_space`.
abbrev pub spaced : ℕ → Kernel → (ℕ × ℕ) × Kernel
spaced kernel_pd k =
    let (pd, m) = copy k.pmm k.memory kernel_pd in
    let (stack_ptr, m1) = allocate_frame k.pmm m in
    let (kernel_ptr, m2) = allocate_frame k.pmm m1 in
    ((pd, kernel_ptr), map_stack pd stack_ptr (record k { memory = m2 }))

abbrev with_cr3 : ℕ → Kernel → Kernel
with_cr3 page k = record k { scheduler = record (k.scheduler) { cr3 = update_cr3 page } }

-- The heap has a block for a process, cleared.
abbrev pub HasBlock : Kernel → Type 0
HasBlock k =
    (r : ℕ × Buckets × Memory)
    → calloc k.pmm 28 k.memory k.heap 1 sizeof_process ≡ some r
    → r.0 ≢ null
