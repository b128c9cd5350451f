-- ===== src/Object/Parse.antt =====
-- A whole object: parse() of wasmc/src/wasm/BinaryParser.cpp, and the layout that the end of
-- Linker::link gives to the parts, wasmc/src/wasm/Linker.cpp.
pub mod Layout
mod Parts
use why.Base.{
  ℕ, zero, suc, ◌+◌, ◌-◌, ◌*◌, ◌/◌, ◌%◌, ◌^◌, Bool, ◌&&◌, Option, none, some, List, [], ◌∷◌, ◌++◌,
  length, take, drop, leb, ◌==◌, if◌then◌else◌,
}
use why.Object.Result.{Error, Result, done, fails, undefined, index, ◌>>=◌}
use why.Object.Words.{to_string}
use why.Object.Symbols.{SymbolTableEntry, extract_symbols}
use why.Object.Relocations.{RelocationData, get_relocation_data}
use why.Object.Debug.{DebugEntry, get_debug_data}
use why.Object.Instruction.{AnyInstruction, parse_instruction}

-- The end of Linker::link: the offsets in the head, and the parts one after the other.
unfoldable pub lay_out : (meta code data_longs symbols debug relocation : List ℕ) → Result (List ℕ)
lay_out (m0 ∷ (m1 ∷ (m2 ∷ (m3 ∷ (m4 ∷ (m5 ∷ meta)))))) code data_longs symbols debug relocation =
    let n1 = (m0 + length code * 8) % 2 ^ 64 in
    let n2 = (n1 + length data_longs * 8) % 2 ^ 64 in
    let n3 = (n2 + length symbols * 8) % 2 ^ 64 in
    let n4 = (n3 + length debug * 8) % 2 ^ 64 in
    let n5 = (n4 + length relocation * 8) % 2 ^ 64 in
    done (
      (m0 ∷ (n1 ∷ (n2 ∷ (n3 ∷ (n4 ∷ (n5 ∷ meta))))))
      ++ (code ++ (data_longs ++ (symbols ++ (debug ++ relocation)))))
lay_out _ code data_longs symbols debug relocation = fails Error.at_out_of_range

-- BinaryParser::slice.
unfoldable pub slice : List ℕ → ℕ → ℕ → Result (List ℕ)
slice raw first last =
    if leb first last && leb last (length raw)
    then done (take (last - first) (drop first raw))
    else undefined

-- The characters of some words.
unfoldable pub strings_of : List ℕ → List ℕ
unfolding to_string
strings_of [] = []
strings_of (piece ∷ longs) = to_string piece ++ strings_of longs

-- What stands before a NUL, and after it.
unfoldable pub split_nul : List ℕ → Option (List ℕ × List ℕ)
split_nul [] = none
split_nul (c ∷ cs) =
    let rest = split_nul cs in
    if c == 0
    then some ([], cs)
    else elim rest [ some (before, after) ↦ some (c ∷ before, after) | none ↦ none ]

unfoldable pub need_nul : List ℕ → Result (List ℕ × List ℕ)
unfolding split_nul
need_nul cs = elim (split_nul cs) [ some parts ↦ done parts | none ↦ fails Error.invalid_metadata ]

-- The strings of the head.
pub record Metadata : Type 0 where
  pub orcid : List ℕ
  pub name : List ℕ
  pub version : List ℕ
  pub author : List ℕ

unfoldable pub parse_metadata : List ℕ → ℕ → Result Metadata
unfolding slice strings_of need_nul index to_string ◌>>=◌
parse_metadata raw code_offset = do
  nva_longs ← slice raw 7 (code_offset / 8)
  (name, after_name) ← need_nul (strings_of nva_longs)
  (version, after_version) ← need_nul after_name
  (author, after_author) ← need_nul after_version
  fifth ← index raw 5
  sixth ← index raw 6
  done (record {
    orcid = to_string fifth ++ to_string sixth;
    name = name;
    version = version;
    author = author;
  })

unfoldable pub parse_code : List ℕ → Result (List AnyInstruction)
unfolding parse_instruction ◌>>=◌
parse_code [] = done []
parse_code (instruction ∷ raw_code) = do
  here ← parse_instruction instruction
  rest ← parse_code raw_code
  done (here ∷ rest)

-- The members that parse() fills.
pub record ParsedObject : Type 0 where
  pub metadata : Metadata
  pub symbols : List SymbolTableEntry
  pub raw_code : List ℕ
  pub code : List AnyInstruction
  pub raw_data : List ℕ
  pub debug_data : List DebugEntry
  pub relocation_data : List RelocationData

-- BinaryParser::parse().
module _ (encode_symbol : List ℕ → ℕ) where
  unfoldable pub parse_object : List ℕ → Result ParsedObject
  unfolding index slice ◌>>=◌
  parse_object raw = do
    code_offset ← index raw 0
    data_offset ← index raw 1
    symbol_table_offset ← index raw 2
    debug_offset ← index raw 3
    relocation_offset ← index raw 4
    end_offset ← index raw 5
    raw_meta ← slice raw 0 (code_offset / 8)
    metadata ← parse_metadata raw code_offset
    raw_symbols ← slice raw (symbol_table_offset / 8) (debug_offset / 8)
    symbols ← extract_symbols encode_symbol raw
    raw_code ← slice raw (code_offset / 8) (data_offset / 8)
    code ← parse_code raw_code
    raw_data ← slice raw (data_offset / 8) (symbol_table_offset / 8)
    raw_debug_data ← slice raw (debug_offset / 8) (relocation_offset / 8)
    debug_data ← get_debug_data raw
    raw_relocation ← slice raw (relocation_offset / 8) (end_offset / 8)
    relocation_data ← get_relocation_data raw_relocation
    done (record {
      metadata = metadata;
      symbols = symbols;
      raw_code = raw_code;
      code = code;
      raw_data = raw_data;
      debug_data = debug_data;
      relocation_data = relocation_data;
    })
