-- ===== src/Process/RoundRobin.antt =====
-- The order of the processes, and the state that each resumes with.
use mathlib.Core.Path.{subst}
use native.Mathlib.Decide.{dec_lt}
use lkd.Prelude.{
  ℕ, ◌+◌, ◌<◌, List, [], ◌∷◌, some, true, length, length-set, get_or-set_self, get_or-set_ne, ◌≡◌,
  ◌≢◌, ◌⊎◌, inl, inr, refl, ap, ◌∙◌, arith,
}
use lkd.Paging.{update_cr3}
use lkd.Process.{
  InterruptState, Process, Scheduler, process_at, zero_process, next_process, save, switch_from,
  switch_process,
}

regs_at : List Process → ℕ → InterruptState
regs_at ps i = (process_at ps i).regs

length-save : (ps : List Process) (i : ℕ) (st : InterruptState) → length (save ps i st) ≡ length ps
unfolding save
length-save ps i st = length-set ps i (record (process_at ps i) { regs = st })

save_self :
    (ps : List Process) (i : ℕ) (st : InterruptState)
    → i < length ps
    → process_at (save ps i st) i ≡ record (process_at ps i) { regs = st }
unfolding save
save_self ps i st h = get_or-set_self ps i (record (process_at ps i) { regs = st }) zero_process h

save_ne :
    (ps : List Process) (i j : ℕ) (st : InterruptState)
    → i ≢ j
    → process_at (save ps i st) j ≡ process_at ps j
unfolding save
save_ne ps i j st h = get_or-set_ne ps i j (record (process_at ps i) { regs = st }) zero_process h

-- A timer interrupt for each of the states, in turn; `out` is the state that the last one returns to.
unfoldable pub run : List InterruptState → InterruptState → Scheduler → InterruptState × Scheduler
run [] out s = (out, s)
run (st ∷ sts) out s = let (out', s') = switch_process st s in run sts out' s'

-- What is left of a round until the process at `i` runs, when the one at `c` does.
abbrev Left : ℕ → ℕ → ℕ → ℕ → Type 0
Left n c i r = ((c < i) × (c + r ≡ i)) ⊎ ((i < c) × (c + r ≡ n + i))

-- The interrupt returns to the process at `i` of the list: with its registers, as the current
-- one, and in its address space.
abbrev pub Resumes : List Process → ℕ → InterruptState × Scheduler → Type 0
Resumes ps i r =
    (r.0 ≡ (process_at ps i).regs)
    × (r.1.current ≡ some i)
    × (r.1.cr3 ≡ update_cr3 ((process_at ps i).page_directory))

step :
    (s : Scheduler) (c : ℕ) (st : InterruptState)
    → s.init ≡ true
    → s.current ≡ some c
    → switch_process st s ≡ switch_from s c st
unfolding switch_process
step s c st on at = rw (at, on) refl

next_process-save :
    (ps : List Process) (c : ℕ) (st : InterruptState)
    → next_process (save ps c st) c ≡ next_process ps c
unfolding next_process
next_process-save ps c st = rw (length-save ps c st) refl

-- One interrupt, from the process at `c`: the next one of the list resumes, with the registers saved
-- for it last.
switch_from-Resumes :
    (s : Scheduler) (c : ℕ) (st : InterruptState)
    → Resumes (save s.processes c st) (next_process s.processes c) (switch_from s c st)
unfolding switch_from
switch_from-Resumes s c st = rw (next_process-save s.processes c st) (refl, refl, refl)

next_lem :
    (ps : List Process) (c : ℕ)
    → c < length ps
    → ((c + 1 < length ps) × (next_process ps c ≡ c + 1))
      ⊎ ((c + 1 ≡ length ps) × (next_process ps c ≡ 0))
unfolding next_process
next_lem ps c h = elim (dec_lt (c + 1) (length ps)) [
  | yes more ↦ inl (more, ground arith)
  | no last ↦ inr (omega arith, ground arith)
]

Resumes-save :
    (ps : List Process) (c i : ℕ) (st : InterruptState) (r : InterruptState × Scheduler)
    → c ≢ i
    → Resumes (save ps c st) i r
    → Resumes ps i r
Resumes-save ps c i st r ne (regs, at, cr3) =
    let same = save_ne ps c i st ne in
    (
      regs ∙ ap (λ (q : Process). q.regs) same,
      at,
      cr3 ∙ ap (λ (q : Process). update_cr3 q.page_directory) same,
    )

processes_after :
    (s : Scheduler) (c : ℕ) (st : InterruptState)
    → (switch_from s c st).1.processes ≡ save s.processes c st
unfolding switch_from
processes_after s c st = refl

init_after : (s : Scheduler) (c : ℕ) (st : InterruptState) → (switch_from s c st).1.init ≡ s.init
unfolding switch_from
init_after s c st = refl

length_after :
    (s : Scheduler) (c : ℕ) (st : InterruptState)
    → length (switch_from s c st).1.processes ≡ length s.processes
length_after s c st =
    ap (λ (ps : List Process). length ps) (processes_after s c st) ∙ length-save s.processes c st

run_step :
    (sts : List InterruptState) (st out : InterruptState) (s : Scheduler) (c : ℕ)
    → s.init ≡ true
    → s.current ≡ some c
    → run (st ∷ sts) out s ≡ run sts ((switch_from s c st).0) ((switch_from s c st).1)
unfolding run
run_step sts st out s c on at =
    ap (λ (r : InterruptState × Scheduler). run sts r.0 r.1) (step s c st on at)

Left-ne : (n c i r : ℕ) → Left n c i r → c ≢ i
Left-ne n c i r (inl h) eq = omega arith
Left-ne n c i r (inr h) eq = omega arith

wait :
    (sts : List InterruptState) (st out : InterruptState) (s : Scheduler) (c i : ℕ)
    → s.init ≡ true
    → s.current ≡ some c
    → c < length s.processes
    → i < length s.processes
    → Left (length s.processes) c i (length (st ∷ sts))
    → Resumes s.processes i (run (st ∷ sts) out s)
unfolding run
wait [] st out s c i on at hc hi left =
    let here : next_process s.processes c ≡ i = ground (arith, next_lem s.processes c hc) in
    rw (step s c st on at) (
      Resumes-save s.processes c i st (switch_from s c st) (Left-ne _ c i _ left) (
        subst (λ (j : ℕ). Resumes (save s.processes c st) j (switch_from s c st)) here
          (switch_from-Resumes s c st)))
wait (st' ∷ sts) st out s c i on at hc hi left = rw (run_step (st' ∷ sts) st out s c on at) (
    Resumes-save s.processes c i st
      (run (st' ∷ sts) ((switch_from s c st).0) ((switch_from s c st).1)) (Left-ne _ c i _ left)
      (subst
        (λ (ps : List Process).
          Resumes ps i (run (st' ∷ sts) ((switch_from s c st).0) ((switch_from s c st).1)))
        (processes_after s c st)
        (wait sts st' ((switch_from s c st).0) ((switch_from s c st).1) (next_process s.processes c)
          i (init_after s c st ∙ on) ((switch_from-Resumes s c st).1)
          (omega (arith, length_after s c st, next_lem s.processes c hc))
          (omega (arith, length_after s c st))
          (ground (arith, length_after s c st, next_lem s.processes c hc)))))

around :
    (sts : List InterruptState) (st out : InterruptState) (s : Scheduler) (i : ℕ)
    → s.init ≡ true
    → s.current ≡ some i
    → i < length s.processes
    → length (st ∷ sts) ≡ length s.processes
    → Resumes (save s.processes i st) i (run (st ∷ sts) out s)
unfolding run
around [] st out s i on at hi n =
    let here : next_process s.processes i ≡ i = ground (arith, next_lem s.processes i hi) in
    rw (step s i st on at) (
      subst (λ (j : ℕ). Resumes (save s.processes i st) j (switch_from s i st)) here
        (switch_from-Resumes s i st))
around (st' ∷ sts) st out s i on at hi n = rw (run_step (st' ∷ sts) st out s i on at) (
    subst
      (λ (ps : List Process).
        Resumes ps i (run (st' ∷ sts) ((switch_from s i st).0) ((switch_from s i st).1)))
      (processes_after s i st)
      (wait sts st' ((switch_from s i st).0) ((switch_from s i st).1) (next_process s.processes i) i
        (init_after s i st ∙ on) ((switch_from-Resumes s i st).1)
        (omega (arith, length_after s i st, next_lem s.processes i hi))
        (omega (arith, length_after s i st))
        (ground (arith, length_after s i st, next_lem s.processes i hi))))

-- With scheduling on, the current process, interrupted in the state `st`, resumes after as many
-- interrupts as there are processes: in exactly that state, as the current one and in its own address
-- space, whatever the states that the others were interrupted in.
pub resumes_after_round :
    (s : Scheduler) (i : ℕ) (st : InterruptState) (sts : List InterruptState) (out : InterruptState)
    → s.init ≡ true
    → s.current ≡ some i
    → i < length s.processes
    → length (st ∷ sts) ≡ length s.processes
    → ((run (st ∷ sts) out s).0 ≡ st)
      × ((run (st ∷ sts) out s).1.current ≡ some i)
      × ((run (st ∷ sts) out s).1.cr3 ≡ update_cr3 ((process_at s.processes i).page_directory))
resumes_after_round s i st sts out on at hi n =
    let (regs, current, cr3) = around sts st out s i on at hi n in
    let saved = save_self s.processes i st hi in
    (
      regs ∙ ap (λ (q : Process). q.regs) saved,
      current,
      cr3 ∙ ap (λ (q : Process). update_cr3 q.page_directory) saved,
    )
