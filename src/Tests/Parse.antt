-- ===== src/Tests/Parse.antt =====
-- A whole object, laid out and parsed.
use why.Base.{ℕ, ◌+◌, ◌^◌, ◌<◌, ◌≡◌, refl, List, [], ◌∷◌, ◌++◌, map, length, arith}
use why.Object.Result.{done, index, ◌>>=◌}
use why.Object.Words.{to_string}
use why.Object.Relocations.{encode_relocation_data, encode_relocation}
use why.Object.Instruction.{AnyInstruction, any_r, encode_instruction}
use why.Object.Parse.{
  lay_out, slice, strings_of, split_nul, need_nul, Metadata, parse_metadata, parse_object,
}
use why.Object.Parse.Layout.{parse_object-lay_out}
use why.Tests.Decode.{add_fields}
use why.Tests.Objects.{
  toy_hash, two_symbols, symbol_words, symbol_words_lem, two_relocations, three_entries,
  debug_words, debug_words_lem, add_opcode, two_symbols_valid,
}

abbrev one_add : List AnyInstruction
one_add = any_r 1 add_fields ∷ []

-- The end of the ORCID, and the name a, the version b and the author c.
abbrev head_strings : List ℕ
head_strings = 0 ∷ (425208184929 ∷ [])

abbrev object_words : List ℕ
object_words =
    (64 ∷ (72 ∷ (80 ∷ (136 ∷ (176 ∷ (224 ∷ head_strings))))))
    ++ (map encode_instruction one_add
        ++ ((7 ∷ []) ++ (symbol_words ++ (debug_words ++ encode_relocation_data two_relocations))))

object_words_lem :
    lay_out
      (64 ∷ (0 ∷ (0 ∷ (0 ∷ (0 ∷ (0 ∷ head_strings))))))
      (map encode_instruction one_add)
      (7 ∷ [])
      symbol_words
      debug_words
      (encode_relocation_data two_relocations)
    ≡ done object_words
unfolding lay_out encode_relocation_data encode_relocation
object_words_lem = refl

abbrev abc : Metadata
abc = record {
  orcid = 224 ∷ 0 ∷ 0 ∷ 0 ∷ 0 ∷ 0 ∷ 0 ∷ 0 ∷ 0 ∷ 0 ∷ 0 ∷ 0 ∷ 0 ∷ 0 ∷ 0 ∷ 0 ∷ [];
  name = 97 ∷ [];
  version = 98 ∷ [];
  author = 99 ∷ [];
}

abc_lem : parse_metadata object_words 64 ≡ done abc
unfolding parse_metadata slice strings_of split_nul need_nul index to_string ◌>>=◌
    encode_relocation_data encode_relocation
abc_lem = refl

object_fits :
    6
      + length head_strings
      + length (map encode_instruction one_add)
      + 1
      + length symbol_words
      + length debug_words
      + length (encode_relocation_data two_relocations)
    < 2 ^ 61
unfolding encode_relocation_data encode_relocation
object_fits = omega arith

parse_object-lay_out_example :
    parse_object toy_hash object_words
    ≡ done (record {
      metadata = abc;
      symbols = two_symbols;
      raw_code = map encode_instruction one_add;
      code = one_add;
      raw_data = 7 ∷ [];
      debug_data = three_entries;
      relocation_data = two_relocations;
    })
parse_object-lay_out_example =
    parse_object-lay_out toy_hash 0 0 0 0 0 head_strings (7 ∷ []) symbol_words debug_words
      object_words one_add two_symbols three_entries two_relocations abc
      (
        (
          add_opcode,
          record {
            opcode_fits = omega arith;
            rs = omega arith;
            rt = omega arith;
            rd = omega arith;
            conditions = omega arith;
            flags = omega arith;
            funct = omega arith;
          },
        ),
        tt,
      )
      two_symbols_valid (omega arith)
      (
        record { type_fits = omega arith; index_fits = omega arith },
        (record { type_fits = omega arith; index_fits = omega arith }, tt),
      )
      (omega arith) symbol_words_lem debug_words_lem object_fits object_words_lem abc_lem
