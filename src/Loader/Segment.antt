-- ===== src/Loader/Segment.antt =====
-- What `Elf32::load` makes of one segment.
use lkd.Prelude.{
  ℕ, ◌+◌, ◌*◌, ◌/◌, ◌%◌, ◌^◌, ◌≤◌, ◌<◌, some, leb, false, ◌≡◌, ◌≢◌, ◌⊎◌, refl, ap, ◌∙◌, u32, arith,
}
use lkd.Memory.{Memory, load32, p2v, kernel_offset}
use lkd.Memory.Address.{p2v_lem}
use lkd.Strings.{memcpy}
use lkd.Strings.Blocks.{memcpy_lem}
use lkd.Pmm.{null, allocate_frame}
use lkd.Pmm.Frames.{IsValid, Allocated, exhausted, frame, allocate_frame-Allocated}
use lkd.Paging.{entry_at, pd_index, pt_index, map_page, get_current_pd}
use lkd.Paging.Walk.{table_of, table_of_lem, walk, same_indices, index_lt}
use lkd.Paging.Mapping.{HasTable, walk-map_page}
use lkd.Paging.Access.{translate, copy_to}
use lkd.Paging.Copies.{SameBut, walk-SameBut, copy_to-memcpy}
use lkd.Kernel.{Kernel}
use lkd.Loader.Load.{Phdr, load_segment}

-- An entry of one page is apart from what lies in another.
entry_apart :
    (p q i lo n : ℕ)
    → p % 4096 ≡ 0
    → q % 4096 ≡ 0
    → i < 1024
    → q ≢ p
    → q ≤ lo
    → lo + n ≤ q + 4096
    → (entry_at p i + 4 ≤ lo) ⊎ (lo + n ≤ entry_at p i)
entry_apart p q i lo n hp hq hi ne from to = ground arith

module _ (k : Kernel) (pd elf_ptr : ℕ) (h : Phdr) where
  -- The frame of the segment.
  abbrev pub phys_addr : ℕ
  phys_addr = (allocate_frame k.pmm k.memory).0

  -- The memory with the segment's page mapped.
  abbrev pub mapped : Memory
  mapped = map_page k.pmm (allocate_frame k.pmm k.memory).1 pd phys_addr h.p_vaddr 0x7

  -- Where the segment starts in the direct map, and where the file's bytes are.
  abbrev pub base : ℕ
  base = kernel_offset + phys_addr + h.p_vaddr % 4096

  abbrev pub file_bytes : ℕ
  file_bytes = u32 (elf_ptr + h.p_offset)

  -- The entry of the directory for the segment, once it is mapped.
  abbrev pub directory_entry : ℕ
  directory_entry = load32 mapped (entry_at (p2v pd) (pd_index h.p_vaddr))

  -- The directory is the one in `cr3`; it has a table for the segment, or the next free frame can
  -- be one; and the segment's frame is neither.
  pub record CanMap : Type 0 where
    pub current : get_current_pd k.scheduler.cr3 ≡ p2v pd
    pub aligned : p2v pd % 4096 ≡ 0
    pub has_table : HasTable k.pmm (allocate_frame k.pmm k.memory).1 (p2v pd) h.p_vaddr
    pub low_table : directory_entry < 2 ^ 30
    pub not_directory : kernel_offset + phys_addr ≢ p2v pd
    pub not_table : kernel_offset + phys_addr ≢ table_of directory_entry

  -- The segment lies below the kernel and in one page, and the file's bytes are
  -- apart from the frame.
  pub record IsSmall : Type 0 where
    pub in_page : h.p_vaddr % 4096 + h.p_filesz ≤ 4096
    pub below : h.p_vaddr + h.p_filesz ≤ kernel_offset
    pub apart : (base ≤ file_bytes) ⊎ (file_bytes + h.p_filesz ≤ base)

  frame_low :
      IsValid k.pmm
      → 1 ≤ k.pmm.nb_frames
      → k.pmm.nb_frames ≤ 2 ^ 18
      → phys_addr ≢ null
      → (phys_addr % 4096 ≡ 0) × (phys_addr < 2 ^ 30)
  frame_low v pos memory_le given = from (allocate_frame-Allocated k.pmm v k.memory pos)
    where
      from :
          Allocated k.pmm k.memory 1 (allocate_frame k.pmm k.memory)
          → (phys_addr % 4096 ≡ 0) × (phys_addr < 2 ^ 30)
      from (exhausted e all) = absurd (given (ap (λ r. r.0) e))
      from (frame f l lt free all addr kept) = (omega arith, omega arith)

  module _ (can : CanMap) (small : IsSmall) (frame_aligned : phys_addr % 4096 ≡ 0)
      (low : phys_addr < 2 ^ 30) where
    maps :
        (m : Memory)
        → SameBut base h.p_filesz m mapped
        → (i : ℕ) → i < h.p_filesz
        → translate m (p2v pd) (h.p_vaddr + i) ≡ some (base + i)
    unfolding translate
    maps m same i lt =
        let va = h.p_vaddr + i in
        let page : va / 4096 ≡ h.p_vaddr / 4096 = omega (arith, small.in_page) in
        let offset : va % 4096 ≡ h.p_vaddr % 4096 + i = omega (arith, small.in_page) in
        let user : leb kernel_offset va ≡ false = ground (arith, small.below) in
        let (di, ti) = same_indices va h.p_vaddr page in
        let here : load32 mapped (entry_at (p2v pd) (pd_index va)) ≡ directory_entry =
          ap (λ j. load32 mapped (entry_at (p2v pd) j)) di in
        let reached : walk mapped (p2v pd) va ≡ some (phys_addr / 4096 * 4096 + va % 4096) =
          walk-map_page k.pmm (allocate_frame k.pmm k.memory).1 pd phys_addr h.p_vaddr 7 can.aligned
            (omega arith) va page refl can.has_table in
        let kept : walk m (p2v pd) va ≡ walk mapped (p2v pd) va =
          walk-SameBut base h.p_filesz mapped m (p2v pd) va same
            (entry_apart (p2v pd) (kernel_offset + phys_addr) (pd_index va) base h.p_filesz
              can.aligned (omega arith) ((index_lt va).0) can.not_directory (omega arith)
              (omega (arith, small.in_page)))
            (rw here (
              entry_apart (table_of directory_entry) (kernel_offset + phys_addr) (pt_index va) base
                h.p_filesz (omega (arith, table_of_lem directory_entry can.low_table)) (omega arith)
                ((index_lt va).1) can.not_table (omega arith) (omega (arith, small.in_page)))) in
        let direct : p2v (phys_addr / 4096 * 4096 + va % 4096) ≡ base + i =
          p2v_lem (phys_addr / 4096 * 4096 + va % 4096) (omega arith) ∙ omega arith in
        rw (user, kept, reached) (ap some direct)

    copied_to_frame :
        load_segment pd elf_ptr h k
        ≡ some (tt, record k { memory = memcpy mapped base file_bytes h.p_filesz })
    unfolding load_segment
    copied_to_frame =
        let copied : copy_to (get_current_pd k.scheduler.cr3) h.p_vaddr file_bytes h.p_filesz mapped
            ≡ some (memcpy mapped base file_bytes h.p_filesz) =
          ap (λ d. copy_to d h.p_vaddr file_bytes h.p_filesz mapped) can.current
          ∙ copy_to-memcpy (p2v pd) h.p_vaddr file_bytes base h.p_filesz mapped maps in
        rw (copied, load_segment) refl

  -- A segment that lies below the kernel and in one page is loaded: the frame that is allocated is
  -- mapped at its address in the directory in `cr3`, and through it the processor finds the file's
  -- bytes, as they were when the page had been mapped. The conditions: a bit for every frame, all
  -- of them below 1 GiB, and one that is left; a directory that stands at a page's start, and that
  -- has a table for the page, below 1 GiB and not the directory itself, or the next free frame can
  -- be one; the segment's frame is neither the directory nor the table; and the file's bytes do not
  -- overlap the place of the segment in its frame.
  pub load_segment_lem :
      IsValid k.pmm
      → 1 ≤ k.pmm.nb_frames
      → k.pmm.nb_frames ≤ 2 ^ 18
      → phys_addr ≢ null
      → CanMap
      → IsSmall
      → (m' : Memory) × (load_segment pd elf_ptr h k ≡ some (tt, record k { memory = m' }))
        × ((i : ℕ)
            → i < h.p_filesz
            → (translate m' (p2v pd) (h.p_vaddr + i) ≡ some (base + i))
              × (m' (base + i) ≡ mapped (file_bytes + i)))
  load_segment_lem v pos memory_le given can small =
      let (frame_aligned, low) = frame_low v pos memory_le given in
      let m' = memcpy mapped base file_bytes h.p_filesz in
      (
        m',
        copied_to_frame can small frame_aligned low,
        λ i lt. (
          maps can small frame_aligned low m'
              (λ a out. ground (arith, memcpy_lem mapped base file_bytes h.p_filesz a small.apart))
              i lt,
          ground (arith, memcpy_lem mapped base file_bytes h.p_filesz (base + i) small.apart),
        ),
      )
