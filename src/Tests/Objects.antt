-- ===== src/Tests/Objects.antt =====
-- The theorems on object files at concrete values.
use why.Base.{
  ℕ, ◌≡◌, refl, true, false, List, [], ◌∷◌, ◌++◌, length, if◌then◌else◌, ◌==◌, some, arith, All,
}
use why.Ops.Decode.{decode_i, decode_opcode}
use why.Ops.Execute.{contains, r_set, i_set}
use why.Object.Result.{done, index, fail_if, ◌>>=◌}
use why.Object.Words.{get_longs, get_longs_str, get_longs_of, pack, push_if, updiv}
use why.Object.Words.Packing.{bytes_of, zeros, padding, bytes_of-get_longs}
use why.Object.Symbols.{SymbolTableEntry, encode_entry, encode_symbol_table, extract_symbols}
use why.Object.Symbols.RoundTrip.{IsEntry, extract_symbols-encode_symbol_table}
use why.Object.Relocations.{RelocationData, encode_relocation_data, get_relocation_data}
use why.Object.Relocations.RoundTrip.{get_relocation_data-encode_relocation_data}
use why.Object.Debug.{
  DebugEntry, filename, function, location, encode_debug_data, encode_debug_entry, encode_string,
  string_bytes, location_bytes, get_debug_data,
}
use why.Machine.Memory.{split_bytes}
use why.Object.Debug.RoundTrip.{get_debug_data-encode_debug_data}
use why.Object.Instruction.{any_r, any_i, encode_instruction, parse_instruction, r_types}
use why.Object.Instruction.Agreement.{
  machine_view, parse_instruction-machine_view, parse_instruction-encode_instruction,
}
use why.Tests.Decode.{add_fields, addi_fields}

abbrev nine_bytes : List ℕ
nine_bytes = 1 ∷ 2 ∷ 3 ∷ 4 ∷ 5 ∷ 6 ∷ 7 ∷ 8 ∷ 255 ∷ []

bytes_of-get_longs_example :
    bytes_of (get_longs nine_bytes)
    ≡ nine_bytes ++ (if length nine_bytes == 0 then zeros 8 else padding (length nine_bytes))
bytes_of-get_longs_example = bytes_of-get_longs nine_bytes (omega arith)

-- A hash that stands for the one of the assembler.
abbrev pub toy_hash : List ℕ → ℕ
toy_hash label = length label

abbrev main_symbol : SymbolTableEntry
main_symbol = record { id = 4; address = 64; type = 4; label = 109 ∷ 97 ∷ 105 ∷ 110 ∷ [] }

abbrev long_symbol : SymbolTableEntry
long_symbol = record {
  id = 12;
  address = 128;
  type = 3;
  label = 97 ∷ 95 ∷ 108 ∷ 111 ∷ 110 ∷ 103 ∷ 95 ∷ 108 ∷ 97 ∷ 98 ∷ 101 ∷ 108 ∷ [];
}

abbrev pub two_symbols : List SymbolTableEntry
two_symbols = main_symbol ∷ (long_symbol ∷ [])

abbrev pub symbol_words : List ℕ
symbol_words =
    17180131329 ∷ 64 ∷ 1852399981 ∷ 51539804162 ∷ 128 ∷ 7809074002897166177 ∷ 1818583649 ∷ []

pub symbol_words_lem : encode_symbol_table two_symbols ≡ done symbol_words
unfolding encode_symbol_table encode_entry updiv get_longs_str get_longs_of pack push_if fail_if
    ◌>>=◌
symbol_words_lem = refl

pub two_symbols_valid : All (IsEntry toy_hash) two_symbols
two_symbols_valid = (
  record {
    id_fits = omega arith;
    id_hash = refl;
    type_fits = omega arith;
    some_char = omega arith;
    length_fits = omega arith;
    no_nul = omega arith;
    ascii = omega arith;
  },
  (
    record {
      id_fits = omega arith;
      id_hash = refl;
      type_fits = omega arith;
      some_char = omega arith;
      length_fits = omega arith;
      no_nul = omega arith;
      ascii = omega arith;
    },
    tt,
  ),
)

-- An object with nothing but its offsets and a part after them.
abbrev offsets_before : List ℕ
offsets_before = 48 ∷ 48 ∷ 48 ∷ 104 ∷ 104 ∷ 104 ∷ []

index_symbols : index (offsets_before ++ (symbol_words ++ [])) 2 ≡ done 48
unfolding index
index_symbols = refl

index_debug : index (offsets_before ++ (symbol_words ++ [])) 3 ≡ done 104
unfolding index
index_debug = refl

extract_symbols-encode_symbol_table_example :
    extract_symbols toy_hash (offsets_before ++ (symbol_words ++ [])) ≡ done two_symbols
extract_symbols-encode_symbol_table_example =
    extract_symbols-encode_symbol_table toy_hash two_symbols symbol_words offsets_before []
      two_symbols_valid (omega arith) symbol_words_lem (omega arith) index_symbols index_debug

abbrev pub two_relocations : List RelocationData
two_relocations =
    record {
      is_data = true;
      type = 2;
      symbol_index = 2305843009213693951;
      offset = 18446744073709551608;
      section_offset = 8;
    }
    ∷ (record { is_data = false; type = 0; symbol_index = 3; offset = 0; section_offset = 16 } ∷ [])

get_relocation_data-encode_relocation_data_example :
    get_relocation_data (encode_relocation_data two_relocations) ≡ done two_relocations
get_relocation_data-encode_relocation_data_example =
    get_relocation_data-encode_relocation_data two_relocations (
      record { type_fits = omega arith; index_fits = omega arith },
      (record { type_fits = omega arith; index_fits = omega arith }, tt),
    )

abbrev pub three_entries : List DebugEntry
three_entries =
    filename (97 ∷ 46 ∷ 99 ∷ [])
    ∷ (function (109 ∷ 97 ∷ 105 ∷ 110 ∷ []) ∷ (location 0 7 2 1 5 64 ∷ []))

abbrev pub debug_words : List ℕ
debug_words = 27917016841061121 ∷ 7955997337506022402 ∷ 30064771075 ∷ 4378853378 ∷ 64 ∷ []

pub debug_words_lem : encode_debug_data three_entries ≡ done debug_words
unfolding encode_debug_data encode_debug_entry encode_string string_bytes location_bytes split_bytes
    get_longs get_longs_of pack push_if fail_if ◌>>=◌
debug_words_lem = refl

abbrev debug_before : List ℕ
debug_before = 48 ∷ 48 ∷ 48 ∷ 48 ∷ 88 ∷ 88 ∷ []

index_debug_start : index (debug_before ++ (debug_words ++ [])) 3 ≡ done 48
unfolding index
index_debug_start = refl

index_relocation : index (debug_before ++ (debug_words ++ [])) 4 ≡ done 88
unfolding index
index_relocation = refl

get_debug_data-encode_debug_data_example :
    get_debug_data (debug_before ++ (debug_words ++ [])) ≡ done three_entries
get_debug_data-encode_debug_data_example =
    get_debug_data-encode_debug_data three_entries debug_words debug_before [] (omega arith)
      debug_words_lem index_debug_start index_relocation

add_immediate_view : machine_view 16187010184118271 ≡ some (any_i 3 addi_fields)
unfolding contains r_set i_set decode_i decode_opcode
add_immediate_view = refl

parse_instruction-machine_view_example :
    parse_instruction 16187010184118271 ≡ done (any_i 3 addi_fields)
parse_instruction-machine_view_example =
    parse_instruction-machine_view 16187010184118271 (any_i 3 addi_fields) add_immediate_view

pub add_opcode : contains r_types 1 ≡ true
unfolding contains r_types
add_opcode = refl

parse_instruction-encode_instruction_example :
    parse_instruction (encode_instruction (any_r 1 add_fields)) ≡ done (any_r 1 add_fields)
parse_instruction-encode_instruction_example =
    parse_instruction-encode_instruction (any_r 1 add_fields) (
      add_opcode,
      record {
        opcode_fits = omega arith;
        rs = omega arith;
        rt = omega arith;
        rd = omega arith;
        conditions = omega arith;
        flags = omega arith;
        funct = omega arith;
      },
    )
