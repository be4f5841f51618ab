-- ===== src/Paging/Mapping.antt =====
-- What `map_page` of src/vmm/paging.cpp maps, and what it leaves as it was.
use lkd.Prelude.{
  ℕ, ◌+◌, ◌*◌, ◌/◌, ◌%◌, ◌^◌, ◌<◌, some, ◌≡◌, ◌≢◌, refl, sym, ◌∙◌, ◌⊎◌, inl, inr, arith,
}
use lkd.Bits.Fields.{bit_and-low}
use lkd.Memory.{Memory, load32, store32, p2v, v2p}
use lkd.Memory.Laws.{load32-store32_self}
use lkd.Memory.Address.{v2p-p2v}
use lkd.Strings.{memset}
use lkd.Pmm.{Pmm, allocate_frame}
use lkd.Paging.{page_entry, entry_at, pd_index, map_page, ensure_table}
use lkd.Paging.Entries.{page_entry_lem}
use lkd.Paging.Walk.{
  table_of, table_of_lem, walk, user_walk, walk_written, user_written, walk_kept, pde_after,
}

-- A frame below 1 GiB that is not the directory's own.
abbrev pub IsTable : ℕ → ℕ → Type 0
IsTable pd e = (e < 2 ^ 30) × (table_of e ≢ pd)

module _ (p : Pmm) (m : Memory) (pd virt : ℕ) where
  -- The directory has a table for the address, or the next free frame can be one.
  abbrev pub HasTable : Type 0
  HasTable =
      ((load32 m (entry_at pd (pd_index virt)) % 2 ≡ 1)
        × IsTable pd (load32 m (entry_at pd (pd_index virt))))
      ⊎ ((load32 m (entry_at pd (pd_index virt)) % 2 ≡ 0) × IsTable pd ((allocate_frame p m).0))

  pub ensure_table_kept :
      load32 m (entry_at pd (pd_index virt)) % 2 ≡ 1 → ensure_table p m pd (pd_index virt) ≡ m
  unfolding ensure_table
  ensure_table_kept h = ground (arith, bit_and-low 1 (load32 m (entry_at pd (pd_index virt))))

  ensure_table_new :
      load32 m (entry_at pd (pd_index virt)) % 2 ≡ 0
      → ensure_table p m pd (pd_index virt)
        ≡ store32
            (memset (allocate_frame p m).1 (p2v (allocate_frame p m).0) 0 4096)
            (entry_at pd (pd_index virt))
            (page_entry (v2p (p2v (allocate_frame p m).0)) 7)
  unfolding ensure_table
  ensure_table_new h = ground (arith, bit_and-low 1 (load32 m (entry_at pd (pd_index virt))))

  ensure_table_lem :
      HasTable
      → (e : ℕ) × (load32 (ensure_table p m pd (pd_index virt)) (entry_at pd (pd_index virt)) ≡ e)
        × (e % 2 ≡ 1)
        × IsTable pd e
  ensure_table_lem (inl (odd, table)) =
      (load32 m (entry_at pd (pd_index virt)), rw (ensure_table_kept odd) refl, odd, table)
  ensure_table_lem (inr (even, (low, apart))) =
      let frame = (allocate_frame p m).0 in
      let same = v2p-p2v frame low in
      let entry = page_entry_lem frame 7 (omega arith) in
      let base : table_of (page_entry frame 7) ≡ table_of frame =
        table_of_lem (page_entry frame 7) (omega (arith, entry))
        ∙ omega (arith, entry, table_of_lem frame low) in
      (
        page_entry frame 7,
        rw (ensure_table_new even, same)
            (load32-store32_self (memset (allocate_frame p m).1 (p2v (allocate_frame p m).0) 0 4096)
              (entry_at pd (pd_index virt)) (page_entry frame 7) (omega (arith, entry))),
        omega (arith, entry),
        (omega (arith, entry), λ eq. apart (sym base ∙ eq)),
      )

  -- A table that is there lets programs through; one that is made does.
  abbrev pub LetsUsers : Type 0
  LetsUsers =
      load32 m (entry_at pd (pd_index virt)) % 2 ≡ 1
      → load32 m (entry_at pd (pd_index virt)) / 4 % 2 ≡ 1

  ensure_table_user :
      HasTable
      → LetsUsers
      → load32 (ensure_table p m pd (pd_index virt)) (entry_at pd (pd_index virt)) / 4 % 2 ≡ 1
  ensure_table_user (inl (odd, table)) user = rw (ensure_table_kept odd) (user odd)
  ensure_table_user (inr (even, (low, apart))) user =
      let frame = (allocate_frame p m).0 in
      let same = v2p-p2v frame low in
      let entry = page_entry_lem frame 7 (omega arith) in
      rw (ensure_table_new even, same)
        (let stored =
            load32-store32_self (memset (allocate_frame p m).1 (p2v (allocate_frame p m).0) 0 4096)
              (entry_at pd (pd_index virt)) (page_entry frame 7) (omega (arith, entry)) in
          omega (arith, stored, entry))

module _ (p : Pmm) (m : Memory) (this phys virt flags : ℕ) (aligned : p2v this % 4096 ≡ 0)
    (phys_lt : phys < 2 ^ 32) where
  -- After `map_page` with the present flag the processor reaches the frame from every address of the
  -- page, if the directory stands at a page's start and has a table for the page, or the next free
  -- frame can be one: below 1 GiB, and not the directory itself.
  pub walk-map_page :
      (va : ℕ)
      → va / 4096 ≡ virt / 4096
      → flags % 2 ≡ 1
      → HasTable p m (p2v this) virt
      → walk (map_page p m this phys virt flags) (p2v this) va
        ≡ some (phys / 4096 * 4096 + va % 4096)
  unfolding map_page
  walk-map_page va page odd has =
      let (e, pde, present, (low, apart)) = ensure_table_lem p m (p2v this) virt has in
      rw (pde) (
        walk_written (ensure_table p m (p2v this) (pd_index virt)) (p2v this) virt phys flags
          aligned e pde low phys_lt va page apart present odd)

  -- With the user flag, too, programs get as far, if the table lets them through.
  pub user_walk-map_page :
      (va : ℕ)
      → va / 4096 ≡ virt / 4096
      → flags / 4 % 2 ≡ 1
      → HasTable p m (p2v this) virt
      → LetsUsers p m (p2v this) virt
      → user_walk (map_page p m this phys virt flags) (p2v this) va
        ≡ walk (map_page p m this phys virt flags) (p2v this) va
  unfolding map_page
  user_walk-map_page va page flag has users =
      let (e, pde, present, (low, apart)) = ensure_table_lem p m (p2v this) virt has in
      let user : e / 4 % 2 ≡ 1 =
        omega (arith, pde, ensure_table_user p m (p2v this) virt has users) in
      rw (pde) (
        user_written (ensure_table p m (p2v this) (pd_index virt)) (p2v this) virt phys flags
          aligned e pde low phys_lt va page apart user flag)

  -- Where the directory, at a page's start, has the table, `map_page` changes no other page's
  -- mapping, if the tables of the two pages are below 1 GiB, the table is not the directory
  -- itself, and the two pages share a directory entry or have different tables.
  pub walk-map_page_ne :
      (va : ℕ)
      → va / 4096 % 2 ^ 20 ≢ virt / 4096 % 2 ^ 20
      → load32 m (entry_at (p2v this) (pd_index virt)) % 2 ≡ 1
      → IsTable (p2v this) (load32 m (entry_at (p2v this) (pd_index virt)))
      → load32 m (entry_at (p2v this) (pd_index va)) < 2 ^ 30
      → (pd_index va ≡ pd_index virt)
        ⊎ (table_of (load32 m (entry_at (p2v this) (pd_index virt)))
            ≢ table_of (load32 m (entry_at (p2v this) (pd_index va))))
      → walk (map_page p m this phys virt flags) (p2v this) va ≡ walk m (p2v this) va
  unfolding map_page
  walk-map_page_ne va other present (low, apart) low_va tables =
      rw (ensure_table_kept p m (p2v this) virt present) (
        walk_kept m (p2v this) virt phys flags aligned
          (load32 m (entry_at (p2v this) (pd_index virt))) refl low phys_lt va other apart low_va
          tables)

  -- It changes no entry of the directory, either.
  pub directory-map_page :
      (i : ℕ)
      → i < 1024
      → load32 m (entry_at (p2v this) (pd_index virt)) % 2 ≡ 1
      → IsTable (p2v this) (load32 m (entry_at (p2v this) (pd_index virt)))
      → load32 (map_page p m this phys virt flags) (entry_at (p2v this) i)
        ≡ load32 m (entry_at (p2v this) i)
  unfolding map_page
  directory-map_page i lt present (low, apart) =
      rw (ensure_table_kept p m (p2v this) virt present) (
        pde_after m (p2v this) virt phys flags aligned
          (load32 m (entry_at (p2v this) (pd_index virt))) refl low phys_lt i lt apart)
