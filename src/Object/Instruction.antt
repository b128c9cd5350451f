-- ===== src/Object/Instruction.antt =====
-- Instruction words as the linker's side reads them: AnyR, AnyI and AnyJ of wasmc/include/wasm/Types.h
-- and Types.cpp, the sets of opcodes of wasmc/src/wasm/Instructions.cpp, and parse(Long) of
-- wasmc/src/wasm/BinaryParser.cpp.
pub mod Agreement
use why.Base.{ℕ, ◌-◌, ◌%◌, ◌^◌, Bool, List, [], ◌∷◌, ◌==◌, if◌then◌else◌}
use why.Ops.Decode.{RFields, IFields, JFields, bits, compile_r, compile_i, compile_j}
use why.Ops.Execute.{contains}
use why.Object.Result.{Error, Result, done, fails}

-- AnyBase with opcode zero, AnyR, AnyI and AnyJ.
pub data AnyInstruction : Type 0 where
  any_nop : AnyInstruction
  any_r : ℕ → RFields → AnyInstruction
  any_i : ℕ → IFields → AnyInstruction
  any_j : ℕ → JFields → AnyInstruction

-- The member function `encode`.
unfoldable pub encode_instruction : AnyInstruction → ℕ
unfolding compile_r compile_i compile_j
encode_instruction any_nop = 0
encode_instruction (any_r opcode r) = compile_r opcode r
encode_instruction (any_i opcode r) = compile_i opcode r
encode_instruction (any_j opcode r) = compile_j opcode r

unfoldable pub r_types : List ℕ
r_types = 1 ∷ 2 ∷ 14 ∷ 17 ∷ 18 ∷ 31 ∷ 48 ∷ 50 ∷ 56 ∷ 61 ∷ 65 ∷ 66 ∷ 68 ∷ 12 ∷ []

unfoldable pub i_types : List ℕ
i_types =
    3 ∷ 4 ∷ 5 ∷ 6 ∷ 7 ∷ 8 ∷ 9 ∷ 10 ∷ 11 ∷ 13 ∷ 19 ∷ 20 ∷ 21 ∷ 22 ∷ 23 ∷ 24 ∷ 25 ∷ 26 ∷ 27 ∷ 28 ∷ 29
    ∷ 30 ∷ 32 ∷ 33 ∷ 34 ∷ 35 ∷ 36 ∷ 37 ∷ 38 ∷ 39 ∷ 40 ∷ 41 ∷ 42 ∷ 43 ∷ 49 ∷ 51 ∷ 52 ∷ 53 ∷ 54 ∷ 55
    ∷ 57 ∷ 58 ∷ 59 ∷ 60 ∷ 62 ∷ 63 ∷ 64 ∷ 67 ∷ []

unfoldable pub j_types : List ℕ
j_types = 15 ∷ 16 ∷ 44 ∷ 45 ∷ 46 ∷ 47 ∷ []

-- The lambda `get`.
abbrev pub get_field : ℕ → ℕ → ℕ → ℕ
get_field instruction offset count = bits instruction (64 - offset - count) count

unfoldable pub parse_r : ℕ → RFields
parse_r instruction = record {
  rs = get_field instruction 19 7;
  rt = get_field instruction 12 7;
  rd = get_field instruction 26 7;
  conditions = get_field instruction 46 4;
  flags = get_field instruction 50 2;
  funct = get_field instruction 52 12;
}

unfoldable pub parse_i : ℕ → IFields
parse_i instruction = record {
  rs = get_field instruction 18 7;
  rd = get_field instruction 25 7;
  conditions = get_field instruction 12 4;
  flags = get_field instruction 16 2;
  immediate = instruction % 2 ^ 32;
}

unfoldable pub parse_j : ℕ → JFields
parse_j instruction = record {
  rs = get_field instruction 12 7;
  link = get_field instruction 19 1 == 1;
  conditions = get_field instruction 26 4;
  flags = get_field instruction 30 2;
  address = instruction % 2 ^ 32;
}

-- BinaryParser::parse(Long).
unfoldable pub parse_instruction : ℕ → Result AnyInstruction
parse_instruction instruction =
    let opcode = get_field instruction 0 12 in
    if opcode == 0
    then done any_nop
    else if contains r_types opcode
    then done (any_r opcode (parse_r instruction))
    else if contains i_types opcode
    then done (any_i opcode (parse_i instruction))
    else if contains j_types opcode
    then done (any_j opcode (parse_j instruction))
    else fails Error.invalid_opcode
