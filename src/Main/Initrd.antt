-- ===== src/Main/Initrd.antt =====
-- `load_initrd` of src/main.cpp. The addresses of the three names that are looked for are the
-- compiler's; their bytes are in memory. `none` is a fault, or the end of the fuel, which bounds the
-- entries and the length of a name.
use lkd.Prelude.{
  ℕ, zero, suc, ◌+◌, List, [], ◌∷◌, Option, none, some, Bool, true, ◌==◌, if◌then◌else◌, u32, codes,
}
use lkd.Memory.{Memory, load32, v2p, p2v}
use lkd.Strings.{strcmp}
use lkd.Printing.{text}
use lkd.Pmm.{null}
use lkd.Paging.{map_page, get_current_pd}
use lkd.Kernel.{Kernel, K, pure, gets, modify, ◌>>=◌, log}
use lkd.Loader.{is_zero}
use lkd.Loader.Load.{elf32}
use lkd.Process.Create.{create_process}
use lkd.Tar.Parse.{parse_tar, data_offset, next_offset}

-- `mbd->mods_addr`, and `mod_start` of the first module.
abbrev pub mods_addr : Memory → ℕ → ℕ
mods_addr m mbd = load32 m (mbd + 24)

abbrev pub mod_start : Memory → ℕ → ℕ
mod_start m mods = load32 m mods

-- The bytes of a string up to its terminator.
unfoldable pub c_string : Memory → ℕ → ℕ → Option (List ℕ)
c_string m a zero = none
c_string m a (suc fuel) =
    let rest : Option (List ℕ) = elim (c_string m (a + 1) fuel) [
      | none ↦ none
      | some cs ↦ some (m a ∷ cs)
    ] in
    if m a == 0 then some [] else rest

-- `strcmp(one, two) == 0`
unfoldable pub same_string : ℕ → ℕ → ℕ → K Bool
same_string fuel one two k = elim (strcmp k.memory one two fuel) [
  | none ↦ none
  | some order ↦ some (is_zero order, k)
]

-- The two pages of the archive that are mapped.
unfoldable pub map_archive : ℕ → ℕ → Kernel → Kernel
map_archive pd start k =
    let first = map_page k.pmm k.memory pd (v2p start) start 0x3 in
    let next = u32 (start + 0x1000) in
    record k { memory = map_page k.pmm first pd (v2p next) next 0x3 }

module _ (input : ℕ → ℕ → ℕ) (fuel local exec_one exec_two exec heap_fuel tar_fuel : ℕ) where
  -- `||` does not go on behind the first name that is the same.
  unfoldable pub is_program : ℕ → K Bool
  is_program name = do
    one ← same_string tar_fuel name exec_one
    two ← if one then pure true else same_string tar_fuel name exec_two
    if two then pure true else same_string tar_fuel name exec

  -- One file of the archive.
  unfoldable pub load_file : ℕ → ℕ → K (Unit {0})
  load_file pd tar = do
    name ← λ k. elim (c_string k.memory tar tar_fuel) [ none ↦ none | some cs ↦ some (cs, k) ]
    _ ← log input fuel (codes "File: %s\n") (text name ∷ [])
    program ← is_program tar
    if program
        then (do
          contents ← gets (λ k. load32 k.memory (tar + data_offset))
          elf ← create_process input fuel heap_fuel local (elf32 contents) pd
          _ ← create_process input fuel heap_fuel local elf pd
          pure tt)
        else pure tt

  -- The loop over the list.
  unfoldable pub load_files : ℕ → ℕ → ℕ → K (Unit {0})
  load_files zero pd tar = λ k. none
  load_files (suc rounds) pd tar =
      let file = load_file pd tar >>= λ _.
      gets (λ k. load32 k.memory (tar + next_offset)) >>= λ next. load_files rounds pd next in
      if tar == null then pure tt else file

  unfoldable pub load_initrd : ℕ → K (Unit {0})
  load_initrd mbd = do
    start ← gets (λ k. p2v (mod_start k.memory (p2v (mods_addr k.memory mbd))))
    pd ← gets (λ k. get_current_pd k.scheduler.cr3)
    _ ← modify (map_archive pd start)
    tar ← parse_tar heap_fuel tar_fuel start
    load_files tar_fuel pd tar
