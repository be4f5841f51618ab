-- ===== src/Pmm/Init/Tables.antt =====
-- What the loop of `PMM::init` over the bitmap's pages maps.
use native.Mathlib.Decide.{dec_lt}
use lkd.Prelude.{
  ℕ, zero, suc, ◌+◌, ◌*◌, ◌%◌, ◌^◌, ◌≤◌, ◌<◌, some, u32, ◌≡◌, ◌≢◌, refl, ap, ◌∙◌, ◌⊎◌, inl, arith,
}
use lkd.Memory.{Memory, load32, p2v, v2p}
use lkd.Memory.Address.{v2p_lem}
use lkd.Paging.{entry_at, pd_index, map_page}
use lkd.Paging.Walk.{table_of, walk, index_lt}
use lkd.Paging.Mapping.{IsTable, walk-map_page, walk-map_page_ne, directory-map_page}
use lkd.Pmm.{Pmm}
use lkd.Pmm.Init.{map_bitmap}

-- The directory at `d` has a table, below 1 GiB and not itself, for each of the `count` pages from
-- `start` on, one of its own for each of its entries; and neither it nor one of them overlaps the
-- pages.
pub record HasTables (m : Memory) (d start count : ℕ) : Type 0 where
  pub aligned : d % 4096 ≡ 0
  pub apart : (d + 4096 ≤ start) ⊎ (start + 4096 * count ≤ d)
  pub present :
      (a : ℕ) → start ≤ a → a < start + 4096 * count → load32 m (entry_at d (pd_index a)) % 2 ≡ 1
  pub table :
      (a : ℕ)
      → start ≤ a
      → a < start + 4096 * count
      → IsTable d (load32 m (entry_at d (pd_index a)))
  pub table_apart :
      (a : ℕ)
      → start ≤ a
      → a < start + 4096 * count
      → let t = table_of (load32 m (entry_at d (pd_index a))) in
        (t + 4096 ≤ start) ⊎ (start + 4096 * count ≤ t)
  pub differ :
      (a b : ℕ)
      → start ≤ a
      → a < start + 4096 * count
      → start ≤ b
      → b < start + 4096 * count
      → (pd_index a ≡ pd_index b)
        ⊎ (table_of (load32 m (entry_at d (pd_index b)))
            ≢ table_of (load32 m (entry_at d (pd_index a))))

-- The tables hang on the directory alone.
pub HasTables-same :
    (m n : Memory) (d start count : ℕ)
    → ((i : ℕ) → i < 1024 → load32 n (entry_at d i) ≡ load32 m (entry_at d i))
    → HasTables m d start count
    → HasTables n d start count
HasTables-same m n d start count same h = record {
  aligned = h.aligned;
  apart = h.apart;
  present = λ a lo hi. rw (same (pd_index a) (index_lt a).0) (h.present a lo hi);
  table = λ a lo hi. rw (same (pd_index a) (index_lt a).0) (h.table a lo hi);
  table_apart = λ a lo hi. rw (same (pd_index a) (index_lt a).0) (h.table_apart a lo hi);
  differ = λ a b alo ahi blo bhi.
      rw (same (pd_index a) (index_lt a).0, same (pd_index b) (index_lt b).0)
        (h.differ a b alo ahi blo bhi);
}

module _ (p : Pmm) (pd start count : ℕ) (below : start + 4096 * count < 2 ^ 32)
    (page : start % 4096 ≡ 0) where
  -- What one round of the loop leaves.
  abbrev one_mapped : ℕ → Memory → Memory
  one_mapped to_map m = map_page p m pd (v2p to_map) to_map 0x3

  one_mapped-directory :
      (to_map : ℕ) (m : Memory)
      → HasTables m (p2v pd) start count
      → start ≤ to_map
      → to_map < start + 4096 * count
      → (i : ℕ) → i < 1024
      → load32 (one_mapped to_map m) (entry_at (p2v pd) i) ≡ load32 m (entry_at (p2v pd) i)
  one_mapped-directory to_map m h lo hi i lt =
      directory-map_page p m pd (v2p to_map) to_map 0x3 h.aligned (omega (arith, v2p_lem to_map)) i
        lt (h.present to_map lo hi) (h.table to_map lo hi)

  one_mapped-HasTables :
      (to_map : ℕ) (m : Memory)
      → HasTables m (p2v pd) start count
      → start ≤ to_map
      → to_map < start + 4096 * count
      → HasTables (one_mapped to_map m) (p2v pd) start count
  one_mapped-HasTables to_map m h lo hi =
      HasTables-same m (one_mapped to_map m) (p2v pd) start count
        (one_mapped-directory to_map m h lo hi) h

  pub map_bitmap-directory :
      (rounds to_map : ℕ) (m : Memory)
      → HasTables m (p2v pd) start count
      → start ≤ to_map
      → to_map + 4096 * rounds ≤ start + 4096 * count
      → (i : ℕ) → i < 1024
      → load32 (map_bitmap p pd to_map rounds m) (entry_at (p2v pd) i)
        ≡ load32 m (entry_at (p2v pd) i)
  unfolding map_bitmap
  map_bitmap-directory zero to_map m h lo hi i lt = refl
  map_bitmap-directory (suc rounds) to_map m h lo hi i lt =
      map_bitmap-directory rounds (u32 (to_map + 0x1000)) (one_mapped to_map m)
        (one_mapped-HasTables to_map m h lo (omega arith)) (omega arith) (omega arith) i lt
      ∙ one_mapped-directory to_map m h lo (omega arith) i lt

  -- The rounds that are left keep the pages that have been mapped.
  map_bitmap-kept :
      (rounds to_map : ℕ) (m : Memory) (va : ℕ)
      → HasTables m (p2v pd) start count
      → to_map % 4096 ≡ 0
      → start ≤ va
      → va < to_map
      → to_map + 4096 * rounds ≤ start + 4096 * count
      → walk (map_bitmap p pd to_map rounds m) (p2v pd) va ≡ walk m (p2v pd) va
  unfolding map_bitmap
  map_bitmap-kept zero to_map m va h at lo before hi = refl
  map_bitmap-kept (suc rounds) to_map m va h at lo before hi =
      let inside : to_map < start + 4096 * count = omega arith in
      map_bitmap-kept rounds (u32 (to_map + 0x1000)) (one_mapped to_map m) va
        (one_mapped-HasTables to_map m h (omega arith) inside) (omega arith) lo (omega arith)
        (omega arith)
      ∙ walk-map_page_ne p m pd (v2p to_map) to_map 0x3 h.aligned (omega (arith, v2p_lem to_map)) va
          (omega arith) (h.present to_map (omega arith) inside)
          (h.table to_map (omega arith) inside) ((h.table va lo (omega arith)).0)
          (h.differ va to_map lo (omega arith) (omega arith) inside)

  pub walk-map_bitmap :
      (rounds to_map : ℕ) (m : Memory) (va : ℕ)
      → HasTables m (p2v pd) start count
      → to_map % 4096 ≡ 0
      → start ≤ to_map
      → to_map + 4096 * rounds ≤ start + 4096 * count
      → to_map ≤ va
      → va < to_map + 4096 * rounds
      → walk (map_bitmap p pd to_map rounds m) (p2v pd) va ≡ some (va % 2 ^ 30)
  unfolding map_bitmap
  walk-map_bitmap zero to_map m va h at lo hi from to = absurd (omega arith)
  walk-map_bitmap (suc rounds) to_map m va h at lo hi from to =
      let inside : to_map < start + 4096 * count = omega arith in
      let tables = one_mapped-HasTables to_map m h lo inside in
      elim (dec_lt va (to_map + 4096)) [
        | yes here ↦
            map_bitmap-kept rounds (u32 (to_map + 0x1000)) (one_mapped to_map m) va tables
              (omega arith) (omega arith) (omega arith) (omega arith)
            ∙ walk-map_page p m pd (v2p to_map) to_map 0x3 h.aligned (omega (arith, v2p_lem to_map))
                va (omega arith) (omega arith)
                (inl (h.present to_map lo inside, h.table to_map lo inside))
            ∙ ap some (omega (arith, v2p_lem to_map))
        | no later ↦
            walk-map_bitmap rounds (u32 (to_map + 0x1000)) (one_mapped to_map m) va tables
              (omega arith) (omega arith) (omega arith) (omega arith) (omega arith)
      ]
