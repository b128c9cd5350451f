-- ===== src/Object/Symbols.antt =====
-- The symbol table of an object file: wasmc/src/wasm/SymbolTable.cpp, encodeSymbolTable of
-- wasmc/src/wasm/Linker.cpp and extractSymbols of wasmc/src/wasm/BinaryParser.cpp.
mod Names
pub mod RoundTrip
use why.Base.{
  ℕ, zero, suc, ◌+◌, ◌-◌, ◌*◌, ◌/◌, ◌%◌, ◌^◌, Bool, true, false, ◌&&◌, not, List, [], ◌∷◌, ◌++◌,
  length, ltb, leb, ◌==◌, if◌then◌else◌, bit_or, add64, extend16,
}
use why.Object.Result.{Error, Result, done, fails, index, fail_if, ◌>>=◌, ◌>>◌}
use why.Object.Words.{updiv, get_longs_str}

-- SymbolTable.h. The type is the underlying unsigned number of a SymbolEnum.
pub record SymbolTableEntry : Type 0 where
  pub id : ℕ
  pub address : ℕ
  pub type : ℕ
  pub label : List ℕ

-- SymbolTableEntry::encode(name), where `name` is the label in every call.
unfoldable pub encode_with_name : SymbolTableEntry → List ℕ → List ℕ
unfolding updiv get_longs_str
encode_with_name entry name =
    let name_words = updiv (length name) 8 in
    bit_or (bit_or (entry.id * 2 ^ 32 % 2 ^ 64) (entry.type * 2 ^ 16 % 2 ^ 32))
      (name_words % 2 ^ 16)
    ∷ (entry.address ∷ get_longs_str name)

-- SymbolTableEntry::encode().
unfoldable pub encode_self : SymbolTableEntry → Result (List ℕ)
unfolding encode_with_name fail_if ◌>>=◌
encode_self entry = do
  fail_if (length entry.label == 0) Error.empty_label
  done (encode_with_name entry entry.label)

-- One round of Linker::encodeSymbolTable, and all of it.
unfoldable pub encode_entry : SymbolTableEntry → List ℕ
unfolding updiv get_longs_str
encode_entry entry =
    bit_or (bit_or (entry.id * 2 ^ 32 % 2 ^ 64) (updiv (length entry.label) 8 % 2 ^ 16))
      (entry.type * 2 ^ 16 % 2 ^ 64)
    ∷ (entry.address ∷ get_longs_str entry.label)

unfoldable pub encode_symbol_table : List SymbolTableEntry → Result (List ℕ)
unfolding encode_entry fail_if ◌>>=◌
encode_symbol_table [] = done []
encode_symbol_table (entry ∷ table) = do
  fail_if (length entry.label == 0) Error.empty_label
  out ← encode_symbol_table table
  done (encode_entry entry ++ out)

-- `while (piece && (piece & 0xff) == 0)`: a word has at most seven zero bytes below another one.
unfoldable pub strip : ℕ → ℕ → ℕ → ℕ × ℕ
strip zero piece removed = (piece, removed)
strip (suc fuel) piece removed =
    let stripped = strip fuel (piece / 2 ^ 8) (removed + 1) in
    if not (piece == 0) && (piece % 2 ^ 8 == 0) then stripped else (piece, removed)

-- The characters of a word from a byte on, up to a NUL.
unfoldable pub chars_from : ℕ → ℕ → ℕ → List ℕ
chars_from zero piece offset = []
chars_from (suc n) piece offset =
    let ch = piece / 2 ^ (8 * offset) % 2 ^ 8 in
    let rest = chars_from n piece (offset + 1) in if ch == 0 then [] else ch ∷ rest

unfoldable pub piece_chars : ℕ → List ℕ
unfolding strip chars_from
piece_chars piece =
    let (stripped, removed) = strip 8 piece 0 in chars_from (8 - removed) stripped removed

-- The name, from `n` words.
unfoldable pub read_name : List ℕ → ℕ → ℕ → Result (List ℕ)
unfolding index piece_chars ◌>>=◌
read_name raw zero i = done []
read_name raw (suc n) i = do
  piece ← index raw i
  rest ← read_name raw n (i + 1)
  done (piece_chars piece ++ rest)

-- `i + 2 + length` with `length` a short.
unfoldable pub name_end : ℕ → ℕ → ℕ
name_end i first = add64 (add64 i 2) (extend16 (first % 2 ^ 16))

-- Assembler::encodeSymbol hashes a label with picosha2, which stands outside of the repository.
module _ (encode_symbol : List ℕ → ℕ) where
  -- The constructor of SymbolTableEntry with an id and a label.
  unfoldable pub checked_entry : ℕ → List ℕ → ℕ → ℕ → Result SymbolTableEntry
  unfolding fail_if ◌>>=◌
  checked_entry id label address type = do
    fail_if (not (encode_symbol label == id)) Error.hash_mismatch
    done (record { id = id; address = address; type = type; label = label })

  -- The entry at `i`. At a negative length `reserve` throws.
  unfoldable pub extract_entry : List ℕ → ℕ → Result (SymbolTableEntry × ℕ)
  unfolding index read_name name_end checked_entry fail_if ◌>>=◌
  extract_entry raw i = do
    first ← index raw i
    address ← index raw (i + 1)
    fail_if (leb (2 ^ 15) (first % 2 ^ 16)) Error.length_error
    name ← read_name raw (name_end i first - (i + 2)) (i + 2)
    entry ← checked_entry (first / 2 ^ 32) name address (first / 2 ^ 16 % 2 ^ 16)
    done (entry, name_end i first)

  -- The loop of extractSymbols; `j` is what is left up to MAX_SYMBOLS.
  unfoldable pub extract_loop : List ℕ → ℕ → ℕ → ℕ → Result (List SymbolTableEntry)
  unfolding extract_entry ◌>>=◌
  extract_loop raw stop zero i = done []
  extract_loop raw stop (suc j) i = elim (ltb i stop) [
    | true ↦ do
      (entry, next) ← extract_entry raw i
      rest ← extract_loop raw stop j next
      done (entry ∷ rest)
    | false ↦ done []
  ]

  -- The offsets are getSymbolTableOffset and getDebugOffset.
  unfoldable pub extract_symbols : List ℕ → Result (List SymbolTableEntry)
  unfolding extract_loop index ◌>>=◌
  extract_symbols raw = do
    symbol_table_offset ← index raw 2
    debug_offset ← index raw 3
    extract_loop raw (debug_offset / 8) 1000000 (symbol_table_offset / 8)
