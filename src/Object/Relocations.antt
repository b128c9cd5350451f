-- ===== src/Object/Relocations.antt =====
-- Relocation entries: RelocationData of wasmc/include/wasm/Types.h and wasmc/src/wasm/Types.cpp,
-- encodeRelocationData of wasmc/src/wasm/Linker.cpp and getRelocationData of
-- wasmc/src/wasm/BinaryParser.cpp.
pub mod RoundTrip
use why.Base.{ℕ, ◌*◌, ◌/◌, ◌%◌, ◌^◌, Bool, List, [], ◌∷◌, ◌++◌, ◌==◌, bit_or, of_bool}
use why.Object.Result.{Result, done, undefined, ◌>>=◌}

-- Types.h, the members that are written. `type` is the two bits of a RelocationType; `symbol_index` is
-- the pattern of a signed number of 61 bits, and the offsets are words.
pub record RelocationData : Type 0 where
  pub is_data : Bool
  pub type : ℕ
  pub symbol_index : ℕ
  pub offset : ℕ
  pub section_offset : ℕ

-- RelocationType.
abbrev pub full : ℕ
full = 0

abbrev pub lower4 : ℕ
lower4 = 2

abbrev pub upper4 : ℕ
upper4 = 3

-- RelocationData::encode and the constructor from three words.
unfoldable pub encode_relocation : RelocationData → List ℕ
encode_relocation r =
    bit_or (bit_or (of_bool r.is_data) (r.type % 2 ^ 2 * 2)) (r.symbol_index * 2 ^ 3 % 2 ^ 64)
    ∷ (r.offset ∷ (r.section_offset ∷ []))

unfoldable pub decode_relocation : ℕ → ℕ → ℕ → RelocationData
decode_relocation first second third = record {
  is_data = first % 2 == 1;
  type = first / 2 % 2 ^ 2;
  symbol_index = first / 2 ^ 3;
  offset = second;
  section_offset = third;
}

-- Linker::encodeRelocationData.
unfoldable pub encode_relocation_data : List RelocationData → List ℕ
unfolding encode_relocation
encode_relocation_data [] = []
encode_relocation_data (r ∷ relocation) = encode_relocation r ++ encode_relocation_data relocation

-- BinaryParser::getRelocationData, of `rawRelocation`.
unfoldable pub get_relocation_data : List ℕ → Result (List RelocationData)
unfolding decode_relocation ◌>>=◌
get_relocation_data [] = done []
get_relocation_data (first ∷ (second ∷ (third ∷ raw))) = do
  rest ← get_relocation_data raw
  done (decode_relocation first second third ∷ rest)
get_relocation_data _ = undefined
