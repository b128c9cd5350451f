-- ===== src/Machine/Paging/Mapping.antt =====
-- What a translation returns, by the numbers in the page tables: VM::translateAddress. The tables are
-- those of the code: the next table is in the bits 63 to 8 of an entry, while ISA.md has bits 63 to 11.
use why.Base.{
  ℕ, ◌+◌, ◌*◌, ◌/◌, ◌%◌, ◌^◌, ◌<◌, ◌≡◌, ◌⊎◌, inl, inr, refl, ap, ◌∙◌, Bool, true, false, ◌==◌,
  if◌then◌else◌, arith, none, some, add64, of_bool, List, [], ◌∷◌, length, Bool-cases,
}
use why.Machine.Types.{Endianness, PageMeta, bit_at, page_meta, get_next, get_start}
use why.Machine.State.{Vm, ok, pure, gets, modify, bind_outcome, ◌>>=◌}
use why.Machine.Memory.{get_word}
use why.Machine.Paging.{
  table_index, table_entry, walk, translate_page, after_walk, translate_virtual, translate_address,
  page_offset,
}

-- The entry at an index of a table: eight bytes each, in little-endian order.
abbrev pub HasEntry : Vm → ℕ → ℕ → ℕ → Type 0
HasEntry vm table index entry =
    get_word ((table + index * 8) % 2 ^ 64) Endianness.little vm ≡ ok entry vm

-- The entries at some indices, one table after the other, are present and lead to a last table.
pub data Leads (vm : Vm) : List ℕ → ℕ → ℕ → Type 0 where
  arrived : {table : ℕ} → Leads vm [] table table
  follow :
      {index table last : ℕ} {indices : List ℕ} (next unused : ℕ)
      → unused < 2 ^ 7
      → HasEntry vm table index (next * 2 ^ 8 + unused * 2 + 1)
      → Leads vm indices (next * 2 ^ 8) last
      → Leads vm (index ∷ indices) table last

-- On the way down there is an entry whose lowest bit is clear.
pub data Misses (vm : Vm) : List ℕ → ℕ → Type 0 where
  missing :
      {index table : ℕ} {indices : List ℕ} (half : ℕ)
      → HasEntry vm table index (half * 2)
      → Misses vm (index ∷ indices) table
  further :
      {index table : ℕ} {indices : List ℕ} (next unused : ℕ)
      → unused < 2 ^ 7
      → HasEntry vm table index (next * 2 ^ 8 + unused * 2 + 1)
      → Misses vm indices (next * 2 ^ 8)
      → Misses vm (index ∷ indices) table

-- The indices are those of an address, from a level on.
abbrev IsPath : ℕ → ℕ → List ℕ → Type 0
IsPath address level [] = Unit
IsPath address level (i ∷ indices) =
    (table_index level address ≡ i) × IsPath address (level + 1) indices

entry_found :
    (vm : Vm) (address level table index entry : ℕ)
    → table_index level address ≡ index
    → HasEntry vm table index entry
    → table_entry table level address vm ≡ ok entry vm
unfolding table_entry
entry_found vm address level table index entry e h = rw e h

present_next :
    (next unused : ℕ)
    → unused < 2 ^ 7
    → (bit_at 0 (next * 2 ^ 8 + unused * 2 + 1) ≡ true)
      × (get_next (next * 2 ^ 8 + unused * 2 + 1) ≡ next * 2 ^ 8)
unfolding get_next
present_next next unused h = (ground arith, omega arith)

absent : (half : ℕ) → bit_at 0 (half * 2) ≡ false
absent half = ground arith

walk-Leads :
    (vm : Vm) (address level table last : ℕ) (indices : List ℕ)
    → IsPath address level indices
    → Leads vm indices table last
    → walk (length indices) level table address vm ≡ ok (some last) vm
unfolding walk ◌>>=◌ bind_outcome pure
walk-Leads vm address level table _ [] path arrived = refl
walk-Leads vm address level table last (i ∷ indices) path (follow next unused h found rest) =
    let (present, there) = present_next next unused h in
    rw (entry_found vm address level table i _ path.0 found, present, there)
      (walk-Leads vm address (level + 1) (next * 2 ^ 8) last indices path.1 rest)

walk-Misses :
    (vm : Vm) (address level table : ℕ) (indices : List ℕ)
    → IsPath address level indices
    → Misses vm indices table
    → walk (length indices) level table address vm ≡ ok none vm
unfolding walk ◌>>=◌ bind_outcome pure
walk-Misses vm address level table [] path x = elim x [ ]
walk-Misses vm address level table (i ∷ indices) path (missing half found) =
    rw (entry_found vm address level table i _ path.0 found, absent half) refl
walk-Misses vm address level table (i ∷ indices) path (further next unused h found rest) =
    let (present, there) = present_next next unused h in
    rw (entry_found vm address level table i _ path.0 found, present, there)
      (walk-Misses vm address (level + 1) (next * 2 ^ 8) indices path.1 rest)

-- The machine after a translation was begun.
abbrev pub asked : ℕ → Vm → Vm
asked address vm = record vm { last_virtual = address }

paged :
    (vm : Vm) (address : ℕ)
    → vm.paging_on ≡ true
    → translate_address address vm ≡ translate_virtual address vm
unfolding translate_address ◌>>=◌ bind_outcome gets pure
paged vm address on =
    ap (λ (b : Bool). (if b then translate_virtual address else pure (address, true)) vm) on

-- The parts of a virtual address: six indices of eight bits, and the offset in the page.
pub record Parts : Type 0 where
  pub i0 : ℕ
  pub i1 : ℕ
  pub i2 : ℕ
  pub i3 : ℕ
  pub i4 : ℕ
  pub i5 : ℕ
  pub offset : ℕ

pub record FitsParts (a : Parts) : Type 0 where
  pub fits0 : a.i0 < 2 ^ 8
  pub fits1 : a.i1 < 2 ^ 8
  pub fits2 : a.i2 < 2 ^ 8
  pub fits3 : a.i3 < 2 ^ 8
  pub fits4 : a.i4 < 2 ^ 8
  pub fits5 : a.i5 < 2 ^ 8
  pub fits_offset : a.offset < 2 ^ 16

abbrev pub address_of : Parts → ℕ
address_of a =
    a.i0 * 2 ^ 56
    + a.i1 * 2 ^ 48
    + a.i2 * 2 ^ 40
    + a.i3 * 2 ^ 32
    + a.i4 * 2 ^ 24
    + a.i5 * 2 ^ 16
    + a.offset

abbrev pub upper : Parts → List ℕ
upper a = a.i0 ∷ (a.i1 ∷ (a.i2 ∷ (a.i3 ∷ (a.i4 ∷ []))))

address-IsPath : (a : Parts) → FitsParts a → IsPath (address_of a) 0 (upper a)
unfolding table_index
address-IsPath a f =
    let f0 = f.fits0 in
    let f1 = f.fits1 in
    let f2 = f.fits2 in
    let f3 = f.fits3 in
    let f4 = f.fits4 in
    let f5 = f.fits5 in
    let f6 = f.fits_offset in
    (omega arith, (omega arith, (omega arith, (omega arith, (omega arith, tt)))))

-- The number of a last entry that is present.
abbrev pub page_entry : (page unused : ℕ) → PageMeta → ℕ
page_entry page unused m =
    page * 2 ^ 16
    + unused * 2 ^ 6
    + of_bool m.modified * 32
    + of_bool m.accessed * 16
    + of_bool m.user * 8
    + of_bool m.executable * 4
    + of_bool m.writable * 2
    + 1

bit_flag : (b : Bool) (x n : ℕ) → n ≡ x * 2 + of_bool b → (n % 2 == 1) ≡ b
bit_flag true x n e = ground arith
bit_flag false x n e = ground arith

module _ (page unused : ℕ) (m : PageMeta) where
  entry-present : bit_at 0 (page_entry page unused m) ≡ true
  entry-present = ground arith

  entry-page_meta : page_meta (page_entry page unused m) ≡ record m { present = true }
  unfolding page_meta
  entry-page_meta =
      let w = of_bool m.writable in
      let x = of_bool m.executable in
      let u = of_bool m.user in
      let a = of_bool m.accessed in
      let d = of_bool m.modified in
      let w_bit : w < 2 = ground arith in
      let x_bit : x < 2 = ground arith in
      let u_bit : u < 2 = ground arith in
      let a_bit : a < 2 = ground arith in
      let high5 = page * 2 ^ 10 + unused in
      let b5 : bit_at 5 (page_entry page unused m) ≡ m.modified =
        bit_flag m.modified high5 _ (omega arith) in
      let b4 : bit_at 4 (page_entry page unused m) ≡ m.accessed =
        bit_flag m.accessed (high5 * 2 + d) _ (omega arith) in
      let b3 : bit_at 3 (page_entry page unused m) ≡ m.user =
        bit_flag m.user ((high5 * 2 + d) * 2 + a) _ (omega arith) in
      let b2 : bit_at 2 (page_entry page unused m) ≡ m.executable =
        bit_flag m.executable (((high5 * 2 + d) * 2 + a) * 2 + u) _ (omega arith) in
      let b1 : bit_at 1 (page_entry page unused m) ≡ m.writable =
        bit_flag m.writable ((((high5 * 2 + d) * 2 + a) * 2 + u) * 2 + x) _ (omega arith) in
      rw (entry-present, b1, b2, b3, b4, b5) refl

  -- A page starts at a multiple of its size, so that the offset does not carry.
  entry-address :
      (address offset : ℕ)
      → page < 2 ^ 48
      → unused < 2 ^ 10
      → address % 2 ^ 16 ≡ offset
      → add64 (get_start (page_entry page unused m)) (page_offset address) ≡ page * 2 ^ 16 + offset
  unfolding get_start
  entry-address address offset small h e =
      let d_bit : of_bool m.modified < 2 = ground arith in
      let a_bit : of_bool m.accessed < 2 = ground arith in
      let u_bit : of_bool m.user < 2 = ground arith in
      let x_bit : of_bool m.executable < 2 = ground arith in
      let w_bit : of_bool m.writable < 2 = ground arith in
      let start : page_entry page unused m / 2 ^ 16 ≡ page = omega arith in
      rw (start, e) (omega arith)

-- The level P5, at an entry that is present.
page_found :
    (vm : Vm) (table address entry : ℕ)
    → table_entry table 5 address vm ≡ ok entry vm
    → bit_at 0 entry ≡ true
    → translate_page table address vm
      ≡ ok
          (add64 (get_start entry) (page_offset address), true)
          (record vm { last_meta = page_meta entry })
unfolding translate_page ◌>>=◌ bind_outcome modify pure
page_found vm table address entry found present = rw (found, present) refl

address-last :
    (a : Parts)
    → FitsParts a
    → (table_index 5 (address_of a) ≡ a.i5) × (address_of a % 2 ^ 16 ≡ a.offset)
unfolding table_index
address-last a f = let f5 = f.fits5 in let f6 = f.fits_offset in (omega arith, omega arith)

-- With paging on and a root table, when the entries of the levels 0 to 4 at the indices of an address,
-- from its highest eight bits down, are present and lead to a last table, and the entry of that table
-- at the sixth index is present, a translation returns the page of that entry with the lowest 16 bits
-- of the address, with success; of the machine it changes what is remembered of the address and of the
-- page only, and the latter is the flags of the entry. The next table is in the bits 63 to 8 of an
-- entry, against ISA.md, where bits 10 to 8 are unused.
pub translate_address-Leads :
    (vm : Vm) (a : Parts) (last page unused : ℕ) (m : PageMeta)
    → vm.paging_on ≡ true
    → 0 < vm.p0
    → FitsParts a
    → Leads (asked (address_of a) vm) (upper a) vm.p0 last
    → HasEntry (asked (address_of a) vm) last a.i5 (page_entry page unused m)
    → page < 2 ^ 48
    → unused < 2 ^ 10
    → translate_address (address_of a) vm
      ≡ ok
          (page * 2 ^ 16 + a.offset, true)
          (record vm { last_virtual = address_of a; last_meta = record m { present = true } })
unfolding translate_virtual after_walk ◌>>=◌ bind_outcome gets modify pure
translate_address-Leads vm a last page unused m on root fits leads found small h =
    let address = address_of a in
    let entry = page_entry page unused m in
    let (index, offset) = address-last a fits in
    let no_root : (vm.p0 == 0) ≡ false = ground arith in
    paged vm address on
    ∙ rw
        (
          no_root,
          walk-Leads (asked address vm) address 0 vm.p0 last (upper a) (address-IsPath a fits)
              leads,
          page_found (asked address vm) last address entry
              (entry_found (asked address vm) address 5 last a.i5 _ index found)
              (entry-present page unused m),
          entry-page_meta page unused m,
          entry-address page unused m address a.offset small h offset,
        )
        refl

-- With paging on, when there is no root table or an entry of the levels 0 to 4 at the indices of the
-- address has its lowest bit clear, while those above it are present, a translation returns zero
-- without success; it changes what is remembered of the address only. The next table is in the bits 63
-- to 8 of an entry, against ISA.md, where bits 10 to 8 are unused.
pub translate_address-Misses :
    (vm : Vm) (a : Parts)
    → vm.paging_on ≡ true
    → FitsParts a
    → (vm.p0 ≡ 0) ⊎ Misses (asked (address_of a) vm) (upper a) vm.p0
    → translate_address (address_of a) vm ≡ ok (0, false) (asked (address_of a) vm)
unfolding translate_virtual after_walk ◌>>=◌ bind_outcome gets modify pure
translate_address-Misses vm a on fits (inl empty) = paged vm (address_of a) on ∙ rw empty refl
translate_address-Misses vm a on fits (inr misses) =
    let address = address_of a in
    let walked =
      walk-Misses (asked address vm) address 0 vm.p0 (upper a) (address-IsPath a fits) misses in
    paged vm address on ∙ elim (Bool-cases (vm.p0 == 0)) [
      | inl none_there ↦ rw none_there refl
      | inr there ↦ rw (there, walked) refl
    ]
