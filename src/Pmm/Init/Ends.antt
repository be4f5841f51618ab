-- ===== src/Pmm/Init/Ends.antt =====
-- That `PMM::init` comes to its end, as its parts put together.
use native.Mathlib.Decide.{ℕ_discrete}
use lkd.Prelude.{
  ℕ, ◌/◌, ◌^◌, ◌<◌, [], ◌∷◌, Option, some, bit_and, u32, ◌>>>◌, codes, ◌≡◌, ◌≢◌, refl, ◌∙◌, arith,
}
use lkd.Memory.{Memory, IsBytes}
use lkd.Printing.{Printer, word}
use lkd.Printing.Render.{HasRoom}
use lkd.Serial
use lkd.Serial.{Serial}
use lkd.Serial.Sent.{Answers}
use lkd.Pmm.{frame_size}
use lkd.Pmm.Init.Reserved.{kernel_end_page_lem}
use lkd.Printing.Stack.{ne→==false}
use lkd.Kernel.{Kernel, log, log_str}
use lkd.Kernel.Logs.{CanLog, Logged, log-Ends, log_str-Logged, bind-some}
use lkd.Pmm.Init.Total.{total_lengths, total_from_lem}
use lkd.Pmm.Init.{
  flags, mmap_rounds, kernel_end_page, bitmap_size_bytes, bitmap_pages, create_bitmap, mark_frames,
  total_from, init_with_map, init,
}

module _ (input : ℕ → ℕ → ℕ) (fuel : ℕ) (answers : Answers input fuel)
    (kernel_start kernel_end mbd : ℕ) where
  -- The frames that the memory map comes to.
  abbrev pub frames_found : Memory → ℕ
  frames_found m = u32 (total_lengths m mbd 0 (mmap_rounds m mbd) 0 / frame_size)

  -- The parts behind a memory map of the frames, but for the serial line.
  abbrev pub booted : Kernel → Kernel
  booted k =
      let (p, m) =
        create_bitmap kernel_start kernel_end mbd k.scheduler.cr3
          (record (k.pmm) { nb_frames = frames_found k.memory }) k.memory in
      record k { pmm = p; memory = mark_frames kernel_start kernel_end mbd p m }

  -- How a call of `init` ends: the result is put together of the parts.
  pub data Ended (k : Kernel) (result : Option (Unit {0} × Kernel)) : Type 0 where
    no_flag :
        bit_and (flags k.memory mbd >>> 6) 0x1 ≡ 0
        → Logged input fuel
            (codes "[ERROR] INVALID MULTIBOOT FLAG in Physical Memory Manager!\n")
            k
            result
        → Ended k result
    ended :
        (p : Printer Serial)
        → bit_and (flags k.memory mbd >>> 6) 0x1 ≢ 0
        → result ≡ some (tt, record (booted k) { serial = p })
        → HasRoom (Serial.write_char input fuel) p
        → Ended k result

  no_map :
      (k : Kernel)
      → bit_and (flags k.memory mbd >>> 6) 0x1 ≡ 0
      → init kernel_start kernel_end mbd input fuel k
        ≡ log_str input fuel
            (codes "[ERROR] INVALID MULTIBOOT FLAG in Physical Memory Manager!\n")
            k
  unfolding init
  no_map k e = rw e refl

  with_map :
      (k : Kernel)
      → CanLog input fuel k
      → IsBytes k.memory
      → kernel_start < 2 ^ 32
      → kernel_end < 2 ^ 32
      → (p : Printer Serial) × (init_with_map kernel_start kernel_end mbd input fuel k
          ≡ some (tt, record (booted k) { serial = p }))
        × HasRoom (Serial.write_char input fuel) p
  unfolding init_with_map
  with_map k room bytes start_lt end_lt =
      let nb = frames_found k.memory in
      let k_end = booted k in
      let (p1, e1, r1) =
        log-Ends input fuel answers k room (codes "[PMM] Kernel start: %x | Kernel_end %x\n")
          (word kernel_start ∷ word kernel_end ∷ []) (ground arith) in
      let (p2, e2, r2) =
        total_from_lem input fuel answers kernel_start kernel_end mbd 0 (mmap_rounds k.memory mbd) 0
          (record k { serial = p1 }) r1 bytes in
      let k2 : Kernel = record k { serial = p2; pmm = record (k.pmm) { nb_frames = nb } } in
      let (p3, e3, r3) =
        log-Ends input fuel answers k2 r2 (codes "[PMM] Found %d physical frames.\n") (word nb ∷ [])
          (ground arith) in
      let created = create_bitmap kernel_start kernel_end mbd k.scheduler.cr3 k2.pmm k.memory in
      let k3 : Kernel = record k { serial = p3; pmm = created.0; memory = created.1 } in
      let (p4, e4, r4) =
        log-Ends input fuel answers k3 r3
          (codes "[PMM] Bitmap initialized at %x, size: %d bytes (%d pages)\n")
          (word (kernel_end_page kernel_end)
            ∷ word (bitmap_size_bytes nb)
            ∷ word (bitmap_pages nb)
            ∷ [])
          (ground (arith, kernel_end_page_lem kernel_end)) in
      (
        p4,
        bind-some
              (log input fuel (codes "[PMM] Kernel start: %x | Kernel_end %x\n")
                (word kernel_start ∷ word kernel_end ∷ []))
              _ k (record k { serial = p1 }) tt e1
            ∙ bind-some
                (total_from kernel_start kernel_end mbd input fuel 0 (mmap_rounds k.memory mbd) 0) _
                (record k { serial = p1 }) (record k { serial = p2 })
                (total_lengths k.memory mbd 0 (mmap_rounds k.memory mbd) 0) e2
            ∙ bind-some (log input fuel (codes "[PMM] Found %d physical frames.\n") (word nb ∷ []))
                _ k2 (record k2 { serial = p3 }) tt e3
            ∙ bind-some
                (log input fuel
                  (codes "[PMM] Bitmap initialized at %x, size: %d bytes (%d pages)\n")
                  (word (kernel_end_page kernel_end)
                    ∷ word (bitmap_size_bytes nb)
                    ∷ word (bitmap_pages nb)
                    ∷ []))
                _ k3 (record k3 { serial = p4 }) tt e4,
        r4,
      )

  -- `init` ends, with a memory map as `booted` says.
  pub init-Ended :
      (k : Kernel)
      → CanLog input fuel k
      → IsBytes k.memory
      → kernel_start < 2 ^ 32
      → kernel_end < 2 ^ 32
      → Ended k (init kernel_start kernel_end mbd input fuel k)
  unfolding init
  init-Ended k room bytes start_lt end_lt =
      elim (ℕ_discrete (bit_and (flags k.memory mbd >>> 6) 0x1) 0) [
        | yes none_there ↦ no_flag none_there (
            rw (no_map k none_there) (
              log_str-Logged input fuel answers k room
                (codes "[ERROR] INVALID MULTIBOOT FLAG in Physical Memory Manager!\n")))
        | no there ↦
            let (p, result, room') = with_map k room bytes start_lt end_lt in
            ended p there (rw (ne→==false _ 0 there) result) room'
      ]
