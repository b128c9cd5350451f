-- ===== src/Machine/Paging.antt =====
-- VM::translateAddress, wvm/src/VM.cpp, and the entries of wvm/src/Paging.cpp.
pub mod Mapping
use why.Base.{
  ℕ, zero, suc, ◌+◌, ◌-◌, ◌*◌, ◌/◌, ◌%◌, ◌^◌, Bool, true, false, Option, none, some, ◌==◌,
  if◌then◌else◌, add64,
}
use why.Machine.Types.{Endianness, page_meta, bit_at, get_next, get_start}
use why.Machine.State.{M, pure, gets, modify, ◌>>=◌, ◌>>◌}
use why.Machine.Memory.{get_word}

-- `Address`: the six table indices, from the top, and the offset in the page.
unfoldable pub table_index : ℕ → ℕ → ℕ
table_index level address = address / 2 ^ (56 - 8 * level) % 2 ^ 8

abbrev pub page_offset : ℕ → ℕ
page_offset address = address % 2 ^ 16

-- The entry of the table at `table` for `address`; an entry takes eight bytes.
unfoldable pub table_entry : ℕ → ℕ → ℕ → M ℕ
unfolding table_index
table_entry table level address =
    get_word (add64 table (table_index level address * 8)) Endianness.little

-- The levels P0 to P4: follow the entries that are present. `none` is a missing one.
unfoldable pub walk : ℕ → ℕ → ℕ → ℕ → M (Option ℕ)
unfolding table_entry get_next
walk zero level table address = pure (some table)
walk (suc left) level table address = do
  entry ← table_entry table level address
  let rest = walk left (level + 1) (get_next entry) address
  if bit_at 0 entry then rest else pure none

-- The dump of all entries of the last table when a page is not present (DEBUG_VIRTMEM is defined).
unfoldable pub dump_entries : ℕ → ℕ → ℕ → M (Unit {0})
dump_entries zero i table = pure tt
dump_entries (suc left) i table = do
  entry ← get_word (add64 table (i * 8)) Endianness.little
  dump_entries left (i + 1) table

-- The level P5 and what is remembered of it.
unfoldable pub translate_page : ℕ → ℕ → M (ℕ × Bool)
unfolding table_entry page_meta get_start dump_entries
translate_page table address = do
  entry ← table_entry table 5 address
  if bit_at 0 entry then pure tt else dump_entries 256 0 table
  modify (λ vm. record vm { last_meta = page_meta entry })
  pure (add64 (get_start entry) (page_offset address), bit_at 0 entry)

-- The address and the success flag.
unfoldable pub after_walk : Option ℕ → ℕ → M (ℕ × Bool)
unfolding translate_page
after_walk none address = pure (0, false)
after_walk (some table) address = translate_page table address

unfoldable pub translate_virtual : ℕ → M (ℕ × Bool)
unfolding walk after_walk
translate_virtual address = do
  modify (λ vm. record vm { last_virtual = address })
  root ← gets (λ vm. vm.p0)
  let walked = do table ← walk 5 0 root address; after_walk table address
  if root == 0 then pure (0, false) else walked

unfoldable pub translate_address : ℕ → M (ℕ × Bool)
unfolding translate_virtual
translate_address address = do
  on ← gets (λ vm. vm.paging_on)
  if on then translate_virtual address else pure (address, true)
