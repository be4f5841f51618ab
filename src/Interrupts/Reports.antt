-- ===== src/Interrupts/Reports.antt =====
-- What `isr_handler` does with each interrupt, and when it does not return.
use native.Mathlib.Decide.{ℕ_discrete}
use lkd.Prelude.{
  ℕ, zero, suc, get_or, ltb, ◌++◌, ◌^◌, ◌<◌, List, [], ◌∷◌, Option, none, some, true, ◌==◌,
  get_elem?, codes, ◌≡◌, ◌≢◌, ◌⊎◌, inl, inr, refl, arith,
}
use lkd.Printing.{Printer, M, Arg, ◌>>◌, word}
use lkd.Printing.Digits.{dec_text, hex_text}
use lkd.Printing.Conversions.{rendered}
use lkd.Printing.Render.{Writes-then}
use lkd.Printing.Rendered.{kprintf-Writes}
use lkd.Serial
use lkd.Printing.Stack.{ne→==false}
use lkd.Serial.{Serial}
use lkd.Serial.Sent.{Answers, sent}
use lkd.Serial.Lines.{CanPrint, Printed, Writes-Printed, kprintf-fits}
use lkd.Process.{InterruptState}
use lkd.Syscalls.{syscall_test, syscall_handler}
use lkd.Interrupts.Exceptions.{Outcome, returns, hangs, report, isr_handler}

-- The registers that are printed hold 32 bits.
pub record Is32Bit (state : InterruptState) : Type 0 where
  pub eax : state.eax < 2 ^ 32
  pub ebx : state.ebx < 2 ^ 32
  pub eip : state.eip < 2 ^ 32
  pub ebp : state.ebp < 2 ^ 32

get_elem?-single : {A : Type 0} (x : A) (i : ℕ) → i ≢ 0 → get_elem? (x ∷ []) i ≡ none
get_elem?-single x zero h = absurd (h refl)
get_elem?-single x (suc i) h = refl

-- What is printed of a call, and of a fault.
abbrev call_line : InterruptState → List ℕ
call_line state =
    codes "[SYSCALLS] Triggerring a syscall, %eax = " ++ dec_text state.eax ++ codes "\n"

abbrev test_line : InterruptState → List ℕ
test_line state = codes "[DUMMY SYSCALL] Arg: " ++ dec_text state.ebx ++ codes ".\n"

abbrev pub call_text : InterruptState → List ℕ
call_text state = call_line state ++ test_line state

abbrev eip_line : InterruptState → List ℕ
eip_line state = codes "[ERROR] %eip = " ++ hex_text state.eip 32 ++ codes "\n"

abbrev ebp_line : InterruptState → List ℕ
ebp_line state = codes "[ERROR] %ebp = " ++ hex_text state.ebp 32 ++ codes "\n"

abbrev pub report_text : InterruptState → List ℕ → List ℕ
report_text state title = (title ++ eip_line state) ++ ebp_line state

protection_rendered :
    rendered true (codes "[ERROR] General Protection fault\n") []
    ≡ some (codes "[ERROR] General Protection fault\n")
unfolding rendered
protection_rendered = refl

page_rendered :
    rendered true (codes "[ERROR] Page fault\n") [] ≡ some (codes "[ERROR] Page fault\n")
unfolding rendered
page_rendered = refl

module _ (state : InterruptState) (regs : Is32Bit state) where
  call_rendered :
      rendered true (codes "[SYSCALLS] Triggerring a syscall, %%eax = %d\n") (word state.eax ∷ [])
      ≡ some (call_line state)
  unfolding rendered
  call_rendered = let fit : ltb state.eax (2 ^ 32) ≡ true = ground (arith, regs.eax) in rw fit refl

  test_rendered :
      rendered true (codes "[DUMMY SYSCALL] Arg: %d.\n") (word state.ebx ∷ [])
      ≡ some (test_line state)
  unfolding rendered
  test_rendered = let fit : ltb state.ebx (2 ^ 32) ≡ true = ground (arith, regs.ebx) in rw fit refl

  eip_rendered :
      rendered true (codes "[ERROR] %%eip = %x\n") (word state.eip ∷ []) ≡ some (eip_line state)
  unfolding rendered
  eip_rendered = let fit : ltb state.eip (2 ^ 32) ≡ true = ground (arith, regs.eip) in rw fit refl

  ebp_rendered :
      rendered true (codes "[ERROR] %%ebp = %x\n") (word state.ebp ∷ []) ≡ some (ebp_line state)
  unfolding rendered
  ebp_rendered = let fit : ltb state.ebp (2 ^ 32) ≡ true = ground (arith, regs.ebp) in rw fit refl

module _ (input : ℕ → ℕ → ℕ) (fuel : ℕ) (state : InterruptState) where
  -- How the handler ends.
  pub data Dispatched (p : Printer Serial) (result : Option (Outcome × Printer Serial))
      : Type 0 where
    called :
        (q : Printer Serial)
        → state.interrupt_number ≡ 0x80
        → state.eax ≡ 0
        → result ≡ some (returns (record state { eax = 0 }), q)
        → CanPrint input fuel q
        → q.device.ports.written ≡ p.device.ports.written ++ sent p.device.init (call_text state)
        → Dispatched p result
    beyond_table :
        state.interrupt_number ≡ 0x80 → state.eax ≢ 0 → result ≡ none → Dispatched p result
    reported :
        (title : List ℕ) (q : Printer Serial)
        → ((state.interrupt_number ≡ 13) × (title ≡ codes "[ERROR] General Protection fault\n"))
          ⊎ ((state.interrupt_number ≡ 14) × (title ≡ codes "[ERROR] Page fault\n"))
        → result ≡ some (hangs, q)
        → CanPrint input fuel q
        → q.device.ports.written
          ≡ p.device.ports.written ++ sent p.device.init (report_text state title)
        → Dispatched p result
    ignored :
        state.interrupt_number ≢ 0x80
        → state.interrupt_number ≢ 13
        → state.interrupt_number ≢ 14
        → result ≡ some (returns state, p)
        → Dispatched p result

  syscall_handler-beyond :
      (p : Printer Serial) → state.eax ≢ 0 → syscall_handler input fuel state p ≡ none
  unfolding syscall_handler
  syscall_handler-beyond p h =
      rw
        (get_elem?-single {A = List ℕ → M Serial ℕ}
          (λ args. syscall_test input fuel (get_or args 0 0)) state.eax h)
        refl

  module _ (answers : Answers input fuel) (regs : Is32Bit state) where
    abbrev print : List ℕ → List Arg → M Serial (Unit {0})
    print fmt args = Serial.kprintf input fuel fmt args

    report_lem :
        (title : List ℕ) (p : Printer Serial)
        → rendered true title [] ≡ some title
        → CanPrint input fuel p
        → Printed input fuel (report_text state title) hangs p (report input fuel title state p)
    unfolding report
    report_lem title p fit room =
        let w = kprintf-Writes (Serial.write_char input fuel) true in
        let eip_args = word state.eip ∷ [] in
        let ebp_args = word state.ebp ∷ [] in
        let eip_fmt = codes "[ERROR] %%eip = %x\n" in
        let ebp_fmt = codes "[ERROR] %%ebp = %x\n" in
        let two =
          Writes-then (Serial.write_char input fuel) title (eip_line state) (print title [])
            (print eip_fmt eip_args) (w title [] title fit)
            (w eip_fmt eip_args (eip_line state) (eip_rendered state regs)) in
        let all =
          Writes-then (Serial.write_char input fuel) (title ++ eip_line state) (ebp_line state)
            (print title [] >> print eip_fmt eip_args) (print ebp_fmt ebp_args) two
            (w ebp_fmt ebp_args (ebp_line state) (ebp_rendered state regs)) in
        let line =
          Writes-Printed input fuel answers p room
            (print title [] >> print eip_fmt eip_args >> print ebp_fmt ebp_args)
            (report_text state title) all in
        record {
          printer = line.printer;
          ends = ground (arith, line.ends);
          room = line.room;
          sends = line.sends;
        }

    -- The line of the call, and that of the call's own, behind each other.
    call_lines :
        (p : Printer Serial)
        → CanPrint input fuel p
        → Printed input fuel (call_text state) tt p (
            (print (codes "[SYSCALLS] Triggerring a syscall, %%eax = %d\n") (word state.eax ∷ [])
                >> print (codes "[DUMMY SYSCALL] Arg: %d.\n") (word state.ebx ∷ []))
              p)
    call_lines p room =
        let w = kprintf-Writes (Serial.write_char input fuel) true in
        let call = codes "[SYSCALLS] Triggerring a syscall, %%eax = %d\n" in
        let test = codes "[DUMMY SYSCALL] Arg: %d.\n" in
        Writes-Printed input fuel answers p room
          (print call (word state.eax ∷ []) >> print test (word state.ebx ∷ [])) (call_text state)
          (Writes-then (Serial.write_char input fuel) (call_line state) (test_line state)
            (print call (word state.eax ∷ [])) (print test (word state.ebx ∷ []))
            (w call (word state.eax ∷ []) (call_line state) (call_rendered state regs))
            (w test (word state.ebx ∷ []) (test_line state) (test_rendered state regs)))

    syscall_lem :
        (p q : Printer Serial)
        → state.eax ≡ 0
        → print (codes "[DUMMY SYSCALL] Arg: %d.\n") (word state.ebx ∷ []) p ≡ some (tt, q)
        → syscall_handler input fuel state p ≡ some (record state { eax = 0 }, q)
    unfolding syscall_handler syscall_test
    syscall_lem p q zeroth e = rw zeroth (ground (arith, e))

    -- An interrupt of the processor, on a serial line that answers, with room on the stack for the
    -- digits of a number, and with 32-bit registers: 0x80 with 0 in `eax` prints the line of the call
    -- and the one that the call itself prints of `ebx`, and returns with the call's result, 0, in
    -- `eax`; any other number calls what stands behind the table, a fault; 13 and 14 print which
    -- fault it is, `eip` and `ebp`, and do not return; every other one returns to the state as it
    -- was and prints nothing.
    pub isr_handler-Dispatched :
        (p : Printer Serial) → CanPrint input fuel p → Dispatched p (isr_handler input fuel state p)
    unfolding isr_handler
    isr_handler-Dispatched p room = elim (ℕ_discrete state.interrupt_number 0x80) [
      | yes call ↦
          let is_call : (state.interrupt_number == 0x80) ≡ true = ground (arith, call) in
          let line =
            (kprintf-fits input fuel answers p room
              (codes "[SYSCALLS] Triggerring a syscall, %%eax = %d\n") (word state.eax ∷ [])
              (ground (arith, regs.eax))).2 in
          elim (ℕ_discrete state.eax 0) [
            | yes zeroth ↦
                let both = call_lines p room in
                let q = both.printer in
                let second : print (codes "[DUMMY SYSCALL] Arg: %d.\n") (word state.ebx ∷ [])
                      line.printer
                    ≡ some (tt, q) =
                  ground (arith, line.ends, both.ends) in
                called q call zeroth
                  (rw is_call (ground (arith, line.ends, syscall_lem line.printer q zeroth second)))
                  both.room both.sends
            | no beyond ↦
                beyond_table call beyond (
                  rw is_call
                    (ground (arith, line.ends, syscall_handler-beyond line.printer beyond)))
          ]
      | no other ↦ elim (ℕ_discrete state.interrupt_number 13) [
        | yes protection ↦
            let is_13 : (state.interrupt_number == 13) ≡ true = ground (arith, protection) in
            let title = codes "[ERROR] General Protection fault\n" in
            let line = report_lem title p protection_rendered room in
            reported title line.printer (inl (protection, refl))
              (rw (ne→==false _ 0x80 other, is_13) line.ends) line.room line.sends
        | no neither ↦ elim (ℕ_discrete state.interrupt_number 14) [
          | yes page ↦
              let is_14 : (state.interrupt_number == 14) ≡ true = ground (arith, page) in
              let title = codes "[ERROR] Page fault\n" in
              let line = report_lem title p page_rendered room in
              reported title line.printer (inr (page, refl))
                (rw (ne→==false _ 0x80 other, ne→==false _ 13 neither, is_14) line.ends) line.room
                line.sends
          | no none_of_them ↦ ignored other neither none_of_them (
              rw (ne→==false _ 0x80 other, ne→==false _ 13 neither, ne→==false _ 14 none_of_them)
                refl)
        ]
      ]
    ]
