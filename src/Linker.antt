-- ===== src/Linker.antt =====
-- The linker, wasmc/src/wasm/Linker.cpp: applyRelocation, the searches in a symbol table, the count of
-- strings in debug data, and the test for collisions.
pub mod Patch
pub mod Relocation
use why.Base.{
  ℕ, zero, suc, ◌+◌, ◌-◌, ◌*◌, ◌/◌, ◌%◌, ◌^◌, Bool, true, false, not, ◌&&◌, ◌||◌, Option, none,
  some, List, [], ◌∷◌, ◌++◌, leb, ◌==◌, if◌then◌else◌, add64,
}
use why.Machine.Memory.{split_bytes}
use why.Object.Result.{Error, Result, done, fails, undefined, index, fail_if, ◌>>=◌, ◌>>◌}
use why.Object.Words.{get_bytes, get_longs}
use why.Object.Symbols.{SymbolTableEntry}
use why.Object.Relocations.{RelocationData, full, lower4, upper4}
use why.Object.Debug.{DebugEntry, filename, function, location}
use why.Assembler.Expression.{same_label}

-- `longs[i] = value`.
unfoldable pub set_elem : ℕ → ℕ → List ℕ → List ℕ
set_elem i value [] = []
set_elem zero value (w ∷ ws) = value ∷ ws
set_elem (suc i) value (w ∷ ws) = w ∷ set_elem i value ws

-- `bytes[i + position] = …`, for the given bytes one after the other.
unfoldable pub overwrite : ℕ → List ℕ → List ℕ → List ℕ
overwrite position new [] = []
overwrite zero [] (b ∷ bytes) = b ∷ bytes
overwrite zero (n ∷ new) (b ∷ bytes) = n ∷ overwrite zero new bytes
overwrite (suc position) new (b ∷ bytes) = b ∷ overwrite position new bytes

-- The bytes that a relocation writes, by its type.
unfoldable pub relocated_bytes : ℕ → ℕ → Result (List ℕ)
unfolding split_bytes
relocated_bytes type value =
    if type == full
    then done (split_bytes 8 value)
    else if type == lower4
    then done (split_bytes 4 value)
    else if type == upper4
    then done (split_bytes 4 (value / 2 ^ 32))
    else fails Error.invalid_relocation

-- Over two words, when the offset is not that of a word; `q` is the offset's word.
unfoldable pub patch_across : ℕ → ℕ → ℕ → ℕ → List ℕ → Result (List ℕ)
patch_across q position type value longs = do
  first ← index longs q
  second ← index longs (suc q)
  new ← relocated_bytes type value
  x ← index (get_longs (overwrite position new (get_bytes first ++ get_bytes second))) 0
  y ← index (get_longs (overwrite position new (get_bytes first ++ get_bytes second))) 1
  done (set_elem (suc q) y (set_elem q x longs))

-- In one word.
unfoldable pub patch_within : ℕ → ℕ → ℕ → List ℕ → Result (List ℕ)
patch_within q type value longs = do
  old ← index longs q
  new ← relocated_bytes type value
  x ← if type == full then done value else index (get_longs (overwrite 0 new (get_bytes old))) 0
  done (set_elem q x longs)

unfoldable pub patch : ℕ → ℕ → ℕ → List ℕ → Result (List ℕ)
patch section_offset type value longs =
    if section_offset % 8 == 0
    then patch_within (section_offset / 8) type value longs
    else patch_across (section_offset / 8) (section_offset % 8) type value longs

-- A relocation with the label that the linker keeps beside it.
pub record Labelled : Type 0 where
  pub entry : RelocationData
  pub label : Option (List ℕ)

-- A map from labels to indices, in the order of its keys; `at` throws on a key that is missing.
unfoldable pub lookup : List (List ℕ × ℕ) → List ℕ → Option ℕ
unfolding same_label
lookup [] key = none
lookup ((k, i) ∷ indices) key =
    let rest = lookup indices key in if same_label k key then some i else rest

unfoldable pub at_key : List (List ℕ × ℕ) → List ℕ → Result ℕ
unfolding lookup
at_key indices key = elim (lookup indices key) [
  | some i ↦ done i
  | none ↦ fails Error.missing_symbol
]

unfoldable pub at_index {ℓ} : {A : Type ℓ} → List A → ℕ → Result A
at_index [] i = fails Error.missing_symbol
at_index (x ∷ xs) zero = done x
at_index (x ∷ xs) (suc i) = at_index xs i

-- A symbol index of -1, in 61 bits.
abbrev pub no_symbol : ℕ
no_symbol = 2 ^ 61 - 1

-- The label and the symbol index of an entry, each found by the other.
unfoldable pub resolve : List SymbolTableEntry → List (List ℕ × ℕ) → Labelled → Result Labelled
unfolding at_key at_index ◌>>=◌
resolve symbols indices r = elim r.label [
  | some label ↦ do
    i ← at_key indices label
    done (record { entry = record r.entry { symbol_index = i }; label = some label })
  | none ↦
      if r.entry.symbol_index == no_symbol
      then done r
      else at_index symbols r.entry.symbol_index >>= λ symbol.
          done (record { entry = r.entry; label = some symbol.label })
]

-- The value to write, or none for a symbol that is unknown.
unfoldable pub relocated_value : SymbolTableEntry → ℕ → ℕ → ℕ → Result (Option ℕ)
relocated_value symbol addend data_offset code_offset =
    let value = add64 symbol.address addend in
    if symbol.type == 4
    then done (some (add64 value code_offset))
    else if symbol.type == 3
    then done (some (add64 value data_offset))
    else if leb symbol.type 2
    then done none
    else fails Error.invalid_relocation

-- The data and the code that are patched.
pub record Sections : Type 0 where
  pub data_longs : List ℕ
  pub code_longs : List ℕ

unfoldable pub patch_sections : RelocationData → ℕ → Sections → Result Sections
unfolding patch ◌>>=◌
patch_sections entry value s =
    if entry.is_data
    then (do
      longs ← patch entry.section_offset entry.type value s.data_longs
      done (record s { data_longs = longs }))
    else (do
      longs ← patch entry.section_offset entry.type value s.code_longs
      done (record s { code_longs = longs }))

unfoldable pub patch_value : RelocationData → Option ℕ → Sections → Result Sections
unfolding patch_sections
patch_value entry none s = done s
patch_value entry (some value) s = patch_sections entry value s

-- One round of the loop of Linker::applyRelocation, and the loop.
unfoldable pub relocate_entry :
    List SymbolTableEntry → ℕ → ℕ → RelocationData → Sections → Result Sections
unfolding at_index relocated_value patch_value ◌>>=◌
relocate_entry symbols data_offset code_offset entry s =
    if entry.symbol_index == no_symbol then done s else (do
      symbol ← at_index symbols entry.symbol_index
      value ← relocated_value symbol entry.offset data_offset code_offset
      patch_value entry value s)

unfoldable pub apply_relocation :
    List SymbolTableEntry
    → List (List ℕ × ℕ)
    → ℕ
    → ℕ
    → List Labelled
    → Sections
    → Result (List Labelled × Sections)
unfolding resolve relocate_entry ◌>>=◌
apply_relocation symbols indices data_offset code_offset [] s = done ([], s)
apply_relocation symbols indices data_offset code_offset (r ∷ relocation) s = do
  resolved ← resolve symbols indices r
  after ← relocate_entry symbols data_offset code_offset resolved.entry s
  (rest, last) ← apply_relocation symbols indices data_offset code_offset relocation after
  done (resolved ∷ rest, last)

-- findSymbolFromAddress and findSymbolFromID, over the entries of a table in the order of their names.
unfoldable pub find_symbol_from_address : ℕ → List (List ℕ × SymbolTableEntry) → ℕ → List ℕ
find_symbol_from_address address [] end_offset =
    if address == end_offset then 46 ∷ (101 ∷ (110 ∷ (100 ∷ []))) else []
find_symbol_from_address address ((symbol, entry) ∷ table) end_offset =
    let rest = find_symbol_from_address address table end_offset in
    if entry.address == address then symbol else rest

unfoldable pub find_symbol_from_id : ℕ → List (List ℕ × SymbolTableEntry) → List ℕ
find_symbol_from_id id [] = []
find_symbol_from_id id ((symbol, entry) ∷ table) =
    let rest = find_symbol_from_id id table in if entry.id == id then symbol else rest

-- Linker::countStringTypes.
unfoldable pub count_string_types : List DebugEntry → ℕ
count_string_types [] = 0
count_string_types (filename value ∷ entries) = suc (count_string_types entries)
count_string_types (function value ∷ entries) = suc (count_string_types entries)
count_string_types (location file_index line column function_index count address ∷ entries) =
    count_string_types entries

-- isUnknown of wasmc/src/wasm/Types.cpp.
unfoldable pub is_unknown : ℕ → Bool
is_unknown type = (type == 0) || ((type == 2) || (type == 1))

-- One key of both tables, other than `.end`, collides when it is known in both.
unfoldable pub check_collision :
    ℕ → Option ℕ → List SymbolTableEntry → List SymbolTableEntry → Result (Unit {0})
unfolding at_index is_unknown fail_if ◌>>=◌
check_collision value none one_table two_table = done tt
check_collision value (some other) one_table two_table = do
  first ← at_index one_table value
  second ← at_index two_table other
  fail_if (not (is_unknown first.type || is_unknown second.type)) Error.symbol_collision

unfoldable pub detect_symbol_collisions :
    List (List ℕ × ℕ)
    → List (List ℕ × ℕ)
    → List SymbolTableEntry
    → List SymbolTableEntry
    → Result (Unit {0})
unfolding check_collision lookup same_label ◌>>=◌
detect_symbol_collisions [] two_indices one_table two_table = done tt
detect_symbol_collisions ((key, value) ∷ one_indices) two_indices one_table two_table = do
  if same_label key (46 ∷ (101 ∷ (110 ∷ (100 ∷ []))))
      then done tt
      else check_collision value (lookup two_indices key) one_table two_table
  detect_symbol_collisions one_indices two_indices one_table two_table
