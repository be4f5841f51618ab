-- ===== src/Process/Tests.antt =====
-- Two processes that the timer interrupts in turn.
use mathlib.Core.Option
use lkd.Process.Refused.{spaced}
use lkd.Prelude.{◌∙◌, ℕ, ◌+◌, ◌/◌, ◌≢◌, ◌==◌, if◌then◌else◌, false, inl, ap}
use lkd.Memory.{Memory, load32, store32, p2v, v2p}
use lkd.Strings.{memcpy, copy_up_from}
use lkd.Bitmap.{get_bit, set_bit}
use lkd.Pmm.{Pmm, frame_size, null, allocate_from, allocate_frame}
use lkd.Pmm.Frames.{used}
use lkd.Paging.{copy, map_page, ensure_table, page_entry, entry_at, pd_index}
use lkd.Paging.Walk.{user_walk, table_of}
use lkd.Paging.Mapping.{HasTable, LetsUsers}
use lkd.Kernel.{Kernel}
use lkd.Kernel.Sample.{kernel}
use lkd.Process.Create.{create_space}
use lkd.Process.Spaces.{stack_reaches_kernel}
use lkd.Prelude.{[], ◌∷◌, some, true, ◌≡◌, refl, arith}
use lkd.Paging.{update_cr3}
use lkd.Process.{InterruptState, Process, Scheduler, zero_state, zero_process, process_at}
use lkd.Process.RoundRobin.{run, resumes_after_round}

abbrev first : Process
first = record zero_process { page_directory = 0xC0005000 }

abbrev second : Process
second = record zero_process { page_directory = 0xC0006000 }

abbrev two : Scheduler
two = record { init = true; processes = first ∷ second ∷ []; current = some 0; cr3 = 0x5000 }

abbrev at_user_code : InterruptState
at_user_code = record zero_state { eip = 0x08048123; eax = 7 }

abbrev elsewhere : InterruptState
elsewhere = record zero_state { eip = 0x08049000 }

resumes_after_round_example :
    ((run (at_user_code ∷ elsewhere ∷ []) zero_state two).0 ≡ at_user_code)
    × ((run (at_user_code ∷ elsewhere ∷ []) zero_state two).1.current ≡ some 0)
    × ((run (at_user_code ∷ elsewhere ∷ []) zero_state two).1.cr3
        ≡ update_cr3 ((process_at (first ∷ second ∷ []) 0).page_directory))
resumes_after_round_example =
    resumes_after_round two 0 at_user_code (elsewhere ∷ []) zero_state refl refl (omega arith) refl

-- A directory at 0x1000 with a table at 0x2000 for the stack, and frames 0 to 3 taken.
abbrev memory : Memory
memory a =
    if a == 0xC0001BFC
    then 0x07
    else if a == 0xC0001BFD
    then 0x20
    else if a == 0xC0100000
    then 0x0F
    else 0

abbrev pmm : Pmm
pmm = record { nb_frames = 8; bm = record { ptr = 0xC0100000; size = 1 } }

abbrev before : Kernel
before = kernel memory pmm 0x1000

abbrev copied : ℕ × Memory
copied = copy pmm memory 0xC0001000

copied_frame : copied.0 ≡ 0xC0004000
unfolding copy allocate_frame allocate_from get_bit p2v
copied_frame = refl

stack_frame : (allocate_frame pmm (copied.1)).0 ≡ 0x5000
unfolding copy allocate_frame allocate_from get_bit set_bit p2v memcpy copy_up_from
stack_frame = refl

abbrev with_stack : Memory
with_stack =
    map_page pmm (allocate_frame pmm (allocate_frame pmm (copied.1)).1).1 (copied.0)
      (allocate_frame pmm (copied.1)).0 0xbfff0000 0x7

stack_entry : load32 with_stack (entry_at (p2v (copied.0)) (pd_index 0xbfff1000)) ≡ 0x2007
unfolding copy allocate_frame allocate_from get_bit set_bit p2v v2p memcpy copy_up_from map_page
    ensure_table load32 store32 page_entry
stack_entry = refl

stack_given : (allocate_frame pmm (copied.1)).0 ≢ null
stack_given = omega (arith, stack_frame)

next_free : used (copied.1) pmm (0x5000 / frame_size + 1) ≡ false
unfolding copy allocate_frame allocate_from get_bit set_bit p2v memcpy copy_up_from
next_free = refl

directory_at : p2v 0xC0004000 ≡ 0xC0004000
unfolding p2v
directory_at = refl

table_at : table_of 0x2007 ≡ 0xC0002000
unfolding p2v
table_at = refl

directory_of_copy : p2v (copied.0) ≡ 0xC0004000
directory_of_copy = ap p2v copied_frame ∙ directory_at

stack_has_table : HasTable pmm with_stack (p2v (copied.0)) 0xbfff1000
stack_has_table = inl (
  omega (arith, stack_entry),
  rw stack_entry (omega arith, λ same. absurd (omega (arith, same, table_at, directory_of_copy))),
)

stack_lets_users : LetsUsers pmm with_stack (p2v (copied.0)) 0xbfff1000
stack_lets_users odd = omega (arith, stack_entry)

stack_reaches_kernel_example :
    (k' : Kernel) × (create_space 0xC0001000 before
      ≡ some ((copied.0, (allocate_frame pmm (allocate_frame pmm (copied.1)).1).0), k'))
    × (user_walk k'.memory (p2v (copied.0)) 0xbfff1000
        ≡ some (allocate_frame pmm (allocate_frame pmm (copied.1)).1).0)
stack_reaches_kernel_example =
    stack_reaches_kernel before 0xC0001000 (omega arith) (omega arith) stack_given
      (rw stack_frame next_free) (omega (arith, stack_frame)) (omega (arith, directory_of_copy))
      stack_has_table stack_lets_users

-- The kernel with a new address space, whose memory is 0 at 0xC0200000.
abbrev after_space : Kernel
after_space = (spaced 0xC0001000 before).1
