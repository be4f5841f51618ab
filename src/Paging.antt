-- ===== src/Paging.antt =====
-- src/vmm/paging.cpp and src/vmm/includes/paging.hpp: page entries, and the mapping of a page. A
-- page directory and its tables are words in memory, reached through the direct map. `invlpg` and
-- the moves to and from `cr3` change no memory: the address in `cr3` is a parameter.
pub mod Entries
pub mod Walk
pub mod Mapping
pub mod Access
pub mod Copies
pub mod Copy
mod Tests
use lkd.Prelude.{
  ℕ, ◌+◌, ◌-◌, ◌*◌, ◌/◌, ◌%◌, ◌^◌, Bool, ◌==◌, if◌then◌else◌, bit_and, bit_or, u16, u32, complement,
  ◌>>>◌,
}
use lkd.Memory.{Memory, load32, store32, v2p, p2v}
use lkd.Strings.{memset, memcpy}
use lkd.Pmm.{Pmm, allocate_frame}

-- `PageEntry(uint32_t value, uint16_t flags)`
unfoldable pub page_entry : ℕ → ℕ → ℕ
page_entry value flags = bit_or (bit_and value (complement 0xFFF)) (bit_and (u16 flags) 0xFFF)

-- `set_value` and `set_flags` add to an entry.
unfoldable pub set_value : ℕ → ℕ → ℕ
set_value entry value = bit_or entry (bit_and value (complement 0xFFF))

unfoldable pub set_flags : ℕ → ℕ → ℕ
set_flags entry flags = bit_or entry (bit_and (u16 flags) 0xFFF)

-- The address of entry `index` of a page.
abbrev pub entry_at : ℕ → ℕ → ℕ
entry_at page index = page + 4 * index

abbrev pub page_size : ℕ
page_size = 0x1000

-- `Page::get_current_pd`, from the value of `cr3`.
unfoldable pub get_current_pd : ℕ → ℕ
get_current_pd cr3 = p2v cr3

-- `update_cr3`: the new value of `cr3`.
unfoldable pub update_cr3 : ℕ → ℕ
update_cr3 page = v2p page

abbrev pub pd_index : ℕ → ℕ
pd_index virt_addr = bit_and (virt_addr >>> 22) 0x3FF

abbrev pub pt_index : ℕ → ℕ
pt_index virt_addr = bit_and (virt_addr >>> 12) 0x3FF

module _ (p : Pmm) where
  -- The address of the copy.
  unfoldable pub copy : Memory → ℕ → ℕ × Memory
  copy m page =
      let (frame, m') = allocate_frame p m in
      let new_page = p2v frame in (new_page, memcpy m' new_page page page_size)

  -- The part of `map_page` that makes sure that the directory has a table.
  unfoldable pub ensure_table : Memory → ℕ → ℕ → Memory
  ensure_table m pd pd_idx =
      let entry = load32 m (entry_at pd pd_idx) in
      let (frame, m') = allocate_frame p m in
      let new_page = p2v frame in
      let cleared = memset m' new_page 0 page_size in
      if bit_and entry 0x1 == 0
      then store32 cleared (entry_at pd pd_idx) (page_entry (v2p new_page) 0x7)
      else m

  unfoldable pub map_page : Memory → ℕ → ℕ → ℕ → ℕ → Memory
  map_page m this phys_addr virt_addr flags =
      let pd = p2v this in
      let pd_idx = pd_index virt_addr in
      let pt_idx = pt_index virt_addr in
      let m' = ensure_table m pd pd_idx in
      let pt = p2v (bit_and (load32 m' (entry_at pd pd_idx)) (complement 0xFFF)) in
      store32 m' (entry_at pt pt_idx) (page_entry phys_addr flags)
