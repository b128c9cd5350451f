-- ===== src/Object/Instruction/Agreement.antt =====
-- The parser of binaries against the machine's decoders and the encoders.
use why.Base.{
  ℕ, ◌/◌, ◌%◌, ◌^◌, ◌≡◌, refl, sym, ap, ◌∙◌, inl, inr, Bool, true, not, ◌&&◌, List, [], ◌∷◌, ◌==◌,
  if◌then◌else◌, Option, none, some, arith, Bool-cases,
}
use why.Ops.Decode.{decode_r, decode_i, decode_j, decode_opcode, compile_r, compile_i, compile_j}
use why.Ops.Decode.RoundTrip.{
  FitR, FitI, FitJ, decode_r-compile_r, decode_i-compile_i, decode_j-compile_j,
}
use why.Ops.Execute.{contains, r_set, i_set, j_set}
use why.Object.Result.{done}
use why.Object.Instruction.{
  AnyInstruction, any_nop, any_r, any_i, any_j, encode_instruction, r_types, i_types, j_types,
  parse_r, parse_i, parse_j, parse_instruction,
}

-- A test that holds of every element of a list holds of a number that the list contains.
abbrev all_pass : (ℕ → Bool) → List ℕ → Bool
all_pass test [] = true
all_pass test (k ∷ ks) = test k && all_pass test ks

contains-all_pass :
    (test : ℕ → Bool) (ks : List ℕ) (n : ℕ)
    → all_pass test ks ≡ true
    → contains ks n ≡ true
    → test n ≡ true
unfolding contains
contains-all_pass test [] n h c = cc
contains-all_pass test (k ∷ ks) n h c = elim (Bool-cases (test k)) [
  | inr bad ↦ let no = rw bad at h in cc
  | inl good ↦
      let rest = rw good at h in
      elim (Bool-cases (n == k)) [
        | inl same ↦ let eq : n ≡ k = ground arith in ap test eq ∙ good
        | inr other ↦ contains-all_pass test ks n rest (rw other at c)
      ]
]

-- The word of the opcode, and the three kinds of fields, as the machine decodes them.
parse_opcode : (instruction : ℕ) → instruction / 2 ^ 52 % 2 ^ 12 ≡ decode_opcode instruction
unfolding decode_opcode
parse_opcode instruction = refl

bits_whole : (n : ℕ) → n / 1 ≡ n
bits_whole n = omega arith

parse_r_lem : (instruction : ℕ) → parse_r instruction ≡ decode_r instruction
unfolding parse_r decode_r
parse_r_lem instruction = rw (bits_whole instruction) refl

parse_i_lem : (instruction : ℕ) → parse_i instruction ≡ decode_i instruction
unfolding parse_i decode_i
parse_i_lem instruction = refl

parse_j_lem : (instruction : ℕ) → parse_j instruction ≡ decode_j instruction
unfolding parse_j decode_j
parse_j_lem instruction = refl

-- The opcodes that the parser takes for each kind.
abbrev pub only_r : ℕ → Bool
only_r n = not (n == 0) && contains r_types n

abbrev pub only_i : ℕ → Bool
only_i n = not (n == 0) && (not (contains r_types n) && contains i_types n)

abbrev pub only_j : ℕ → Bool
only_j n =
    not (n == 0) && (not (contains r_types n) && (not (contains i_types n) && contains j_types n))

module _ (n : ℕ) where
  parse_as_r :
      only_r (decode_opcode n) ≡ true
      → parse_instruction n ≡ done (any_r (decode_opcode n) (decode_r n))
  unfolding parse_instruction decode_opcode
  parse_as_r h = rw (sym (parse_r_lem n)) (ground arith)

  parse_as_i :
      only_i (decode_opcode n) ≡ true
      → parse_instruction n ≡ done (any_i (decode_opcode n) (decode_i n))
  unfolding parse_instruction decode_opcode
  parse_as_i h = rw (sym (parse_i_lem n)) (ground arith)

  parse_as_j :
      only_j (decode_opcode n) ≡ true
      → parse_instruction n ≡ done (any_j (decode_opcode n) (decode_j n))
  unfolding parse_instruction decode_opcode
  parse_as_j h = rw (sym (parse_j_lem n)) (ground arith)

  -- How `execute` of the machine reads a word.
  abbrev pub machine_view : Option AnyInstruction
  machine_view =
      let opcode = decode_opcode n in
      if contains r_set opcode
      then some (any_r opcode (decode_r n))
      else if contains i_set opcode
      then some (any_i opcode (decode_i n))
      else if contains j_set opcode
      then some (any_j opcode (decode_j n))
      else none

r_set_only : all_pass only_r r_set ≡ true
unfolding contains r_set r_types
r_set_only = refl

i_set_only : all_pass only_i i_set ≡ true
unfolding contains i_set r_types i_types
i_set_only = refl

j_set_only : all_pass only_j j_set ≡ true
unfolding contains j_set r_types i_types j_types
j_set_only = refl

-- Every word that the machine executes as an instruction of some type, the parser of binaries reads as
-- one of that type, with the same opcode and fields.
pub parse_instruction-machine_view :
    (n : ℕ) (a : AnyInstruction) → machine_view n ≡ some a → parse_instruction n ≡ done a
parse_instruction-machine_view n a h = elim (Bool-cases (contains r_set (decode_opcode n))) [
  | inl r ↦
      let view = rw r at h in
      parse_as_r n (contains-all_pass only_r r_set (decode_opcode n) r_set_only r) ∙ cc
  | inr no_r ↦ elim (Bool-cases (contains i_set (decode_opcode n))) [
    | inl i ↦
        let view = rw (no_r, i) at h in
        parse_as_i n (contains-all_pass only_i i_set (decode_opcode n) i_set_only i) ∙ cc
    | inr no_i ↦ elim (Bool-cases (contains j_set (decode_opcode n))) [
      | inl j ↦
          let view = rw (no_r, no_i, j) at h in
          parse_as_j n (contains-all_pass only_j j_set (decode_opcode n) j_set_only j) ∙ cc
      | inr no_j ↦ let view = rw (no_r, no_i, no_j) at h in cc
    ]
  ]
]

-- What the format can hold: an opcode of the type, and fields within their widths.
abbrev pub IsInstruction : AnyInstruction → Type 0
IsInstruction any_nop = Unit
IsInstruction (any_r opcode r) = (only_r opcode ≡ true) × FitR opcode r
IsInstruction (any_i opcode r) = (only_i opcode ≡ true) × FitI opcode r
IsInstruction (any_j opcode r) = (only_j opcode ≡ true) × FitJ opcode r

-- An encoded instruction is parsed back, if its fields fit and its opcode is one of its type.
pub parse_instruction-encode_instruction :
    (a : AnyInstruction) → IsInstruction a → parse_instruction (encode_instruction a) ≡ done a
unfolding encode_instruction
parse_instruction-encode_instruction any_nop h = unfold parse_instruction in refl
parse_instruction-encode_instruction (any_r opcode r) h =
    let (same, fields) = decode_r-compile_r opcode r h.1 in
    parse_as_r (compile_r opcode r) (ap only_r same ∙ h.0) ∙ rw (same, fields) refl
parse_instruction-encode_instruction (any_i opcode r) h =
    let (same, fields) = decode_i-compile_i opcode r h.1 in
    parse_as_i (compile_i opcode r) (ap only_i same ∙ h.0) ∙ rw (same, fields) refl
parse_instruction-encode_instruction (any_j opcode r) h =
    let (same, fields) = decode_j-compile_j opcode r h.1 in
    parse_as_j (compile_j opcode r) (ap only_j same ∙ h.0) ∙ rw (same, fields) refl
