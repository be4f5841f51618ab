-- ===== src/Paging/Walk.antt =====
-- What the processor makes of the tables, against `map_page` of src/vmm/paging.cpp.
use lkd.Prelude.{
  ℕ, ◌+◌, ◌*◌, ◌/◌, ◌%◌, ◌^◌, ◌≤◌, ◌<◌, Option, none, some, ◌==◌, if◌then◌else◌, bit_and,
  complement, ◌≡◌, ◌≢◌, refl, ap, sym, ◌∙◌, ◌⊎◌, inl, inr, arith,
}
use lkd.Bits.Fields.{bit_and-low}
use lkd.Memory.{Memory, load32, store32, p2v, kernel_offset}
use lkd.Memory.Laws.{load32-store32_self, load32-store32_apart}
use lkd.Memory.Address.{p2v_lem}
use lkd.Paging.{page_entry, entry_at, pd_index, pt_index}
use lkd.Paging.Entries.{page_mask, page_entry_lem}

-- Where the kernel finds the table of a directory entry.
abbrev pub table_of : ℕ → ℕ
table_of entry = p2v (bit_and entry (complement 0xFFF))

-- The processor's walk of a directory that the kernel sees at `pd`, through the direct map.
unfoldable pub walk : Memory → ℕ → ℕ → Option ℕ
walk m pd virt_addr =
    let pde = load32 m (entry_at pd (pd_index virt_addr)) in
    let pte = load32 m (entry_at (table_of pde) (pt_index virt_addr)) in
    if pde % 2 == 0
    then none
    else if pte % 2 == 0
    then none
    else some (pte / 4096 * 4096 + virt_addr % 4096)

-- The walk for a program, which both entries have to let through.
unfoldable pub user_walk : Memory → ℕ → ℕ → Option ℕ
unfolding walk
user_walk m pd virt_addr =
    let pde = load32 m (entry_at pd (pd_index virt_addr)) in
    let pte = load32 m (entry_at (table_of pde) (pt_index virt_addr)) in
    if pde / 4 % 2 == 0 then none else if pte / 4 % 2 == 0 then none else walk m pd virt_addr

pub table_of_lem : (e : ℕ) → e < 2 ^ 30 → table_of e ≡ kernel_offset + e / 4096 * 4096
table_of_lem e h = ap p2v (page_mask e (omega arith)) ∙ p2v_lem (e / 4096 * 4096) (omega arith)

pub pd_index_lem : (a : ℕ) → pd_index a ≡ a / 2 ^ 22 % 1024
pd_index_lem a = bit_and-low 10 (a / 2 ^ 22)

pt_index_lem : (a : ℕ) → pt_index a ≡ a / 2 ^ 12 % 1024
pt_index_lem a = bit_and-low 10 (a / 2 ^ 12)

-- Entries of different pages do not overlap.
entries_apart :
    (p q i j : ℕ)
    → p % 4096 ≡ 0
    → q % 4096 ≡ 0
    → i < 1024
    → j < 1024
    → (p ≢ q) ⊎ (i ≢ j)
    → (entry_at p i + 4 ≤ entry_at q j) ⊎ (entry_at q j + 4 ≤ entry_at p i)
entries_apart p q i j hp hq hi hj h = ground arith

user_walk-walk :
    (m : Memory) (pd va e entry : ℕ)
    → load32 m (entry_at pd (pd_index va)) ≡ e
    → load32 m (entry_at (table_of e) (pt_index va)) ≡ entry
    → e / 4 % 2 ≡ 1
    → entry / 4 % 2 ≡ 1
    → user_walk m pd va ≡ walk m pd va
unfolding user_walk
user_walk-walk m pd va e entry pde pte he hentry =
    let dir : load32 m (entry_at pd (pd_index va)) / 4 % 2 ≡ 1 = omega (arith, pde) in
    let table : load32 m (entry_at (table_of (load32 m (entry_at pd (pd_index va)))) (pt_index va))
        ≡ entry =
      ap (λ t. load32 m (entry_at (table_of t) (pt_index va))) pde ∙ pte in
    ground (arith, dir, table)

walk-some :
    (m : Memory) (pd va e entry : ℕ)
    → load32 m (entry_at pd (pd_index va)) ≡ e
    → load32 m (entry_at (table_of e) (pt_index va)) ≡ entry
    → e % 2 ≡ 1
    → entry % 2 ≡ 1
    → walk m pd va ≡ some (entry / 4096 * 4096 + va % 4096)
unfolding walk
walk-some m pd va e entry pde pte he hentry = rw (pde, pte) (ground arith)

-- Two addresses of one page share the entries that lead to them.
pub same_indices :
    (va virt : ℕ)
    → va / 4096 ≡ virt / 4096
    → (pd_index va ≡ pd_index virt) × (pt_index va ≡ pt_index virt)
same_indices va virt h = (
  omega (arith, pd_index_lem va, pd_index_lem virt),
  omega (arith, pt_index_lem va, pt_index_lem virt),
)

pub index_lt : (a : ℕ) → (pd_index a < 1024) × (pt_index a < 1024)
index_lt a = (omega (arith, pd_index_lem a), omega (arith, pt_index_lem a))

module _ (m : Memory) (pd virt phys flags : ℕ) (aligned : pd % 4096 ≡ 0) (e : ℕ)
    (pde : load32 m (entry_at pd (pd_index virt)) ≡ e) (direct : e < 2 ^ 30)
    (phys_lt : phys < 2 ^ 32) where
  -- The write of the table's entry, which is the last step of `map_page`.
  abbrev pub entry_written : Memory
  entry_written = store32 m (entry_at (table_of e) (pt_index virt)) (page_entry phys flags)

  entry_lt : page_entry phys flags < 2 ^ 32
  entry_lt = omega (arith, page_entry_lem phys flags phys_lt)

  -- The directory is as it was.
  pub pde_after :
      (i : ℕ)
      → i < 1024
      → table_of e ≢ pd
      → load32 entry_written (entry_at pd i) ≡ load32 m (entry_at pd i)
  pde_after i lt apart =
      load32-store32_apart m (entry_at (table_of e) (pt_index virt)) (page_entry phys flags)
        (entry_at pd i)
        (entries_apart pd (table_of e) i (pt_index virt) aligned
          (omega (arith, table_of_lem e direct)) lt ((index_lt virt).1)
          (inl (λ same. apart (sym same))))

  pub walk_written :
      (va : ℕ)
      → va / 4096 ≡ virt / 4096
      → table_of e ≢ pd
      → e % 2 ≡ 1
      → flags % 2 ≡ 1
      → walk entry_written pd va ≡ some (phys / 4096 * 4096 + va % 4096)
  walk_written va page apart present odd =
      let (di, ti) = same_indices va virt page in
      let found : load32 entry_written (entry_at pd (pd_index va)) ≡ e =
        rw (di) (pde_after (pd_index virt) ((index_lt virt).0) apart ∙ pde) in
      let read : load32 entry_written (entry_at (table_of e) (pt_index va))
          ≡ page_entry phys flags =
        rw (ti) (
          load32-store32_self m (entry_at (table_of e) (pt_index virt)) (page_entry phys flags)
            entry_lt) in
      walk-some entry_written pd va e (page_entry phys flags) found read present
        (omega (arith, page_entry_lem phys flags phys_lt))
      ∙ ap some (omega (arith, page_entry_lem phys flags phys_lt))

  -- A program gets as far as the kernel, where the directory's entry and the page's let it through.
  pub user_written :
      (va : ℕ)
      → va / 4096 ≡ virt / 4096
      → table_of e ≢ pd
      → e / 4 % 2 ≡ 1
      → flags / 4 % 2 ≡ 1
      → user_walk entry_written pd va ≡ walk entry_written pd va
  user_written va page apart user flag =
      let (di, ti) = same_indices va virt page in
      user_walk-walk entry_written pd va e (page_entry phys flags)
        (rw (di) (pde_after (pd_index virt) ((index_lt virt).0) apart ∙ pde))
        (rw (ti) (
          load32-store32_self m (entry_at (table_of e) (pt_index virt)) (page_entry phys flags)
            entry_lt))
        user (omega (arith, page_entry_lem phys flags phys_lt))

  tables_differ :
      (va : ℕ)
      → va / 4096 % 2 ^ 20 ≢ virt / 4096 % 2 ^ 20
      → (pd_index va ≡ pd_index virt)
        ⊎ (table_of e ≢ table_of (load32 m (entry_at pd (pd_index va))))
      → (table_of (load32 m (entry_at pd (pd_index va))) ≢ table_of e)
        ⊎ (pt_index va ≢ pt_index virt)
  tables_differ va other (inr apart) = inl (λ eq. apart (sym eq))
  tables_differ va other (inl same) = inr (λ eq. other (
      omega
        (arith, eq, same, pd_index_lem va, pd_index_lem virt, pt_index_lem va, pt_index_lem virt)))

  pub walk_kept :
      (va : ℕ)
      → va / 4096 % 2 ^ 20 ≢ virt / 4096 % 2 ^ 20
      → table_of e ≢ pd
      → load32 m (entry_at pd (pd_index va)) < 2 ^ 30
      → (pd_index va ≡ pd_index virt)
        ⊎ (table_of e ≢ table_of (load32 m (entry_at pd (pd_index va))))
      → walk entry_written pd va ≡ walk m pd va
  unfolding walk
  walk_kept va other apart low tables =
      let e' = load32 m (entry_at pd (pd_index va)) in
      let same_dir = pde_after (pd_index va) ((index_lt va).0) apart in
      let differ : (table_of e' ≢ table_of e) ⊎ (pt_index va ≢ pt_index virt) =
        tables_differ va other tables in
      let same_entry : load32 entry_written (entry_at (table_of e') (pt_index va))
          ≡ load32 m (entry_at (table_of e') (pt_index va)) =
        load32-store32_apart m (entry_at (table_of e) (pt_index virt)) (page_entry phys flags)
          (entry_at (table_of e') (pt_index va))
          (entries_apart (table_of e') (table_of e) (pt_index va) (pt_index virt)
            (omega (arith, table_of_lem e' low)) (omega (arith, table_of_lem e direct))
            ((index_lt va).1) ((index_lt virt).1) differ) in
      rw (same_dir, same_entry) refl
