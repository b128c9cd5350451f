-- ===== src/Tests/Decode.antt =====
-- The theorems on instruction words at concrete fields.
use why.Base.{ℕ, ◌≡◌, true, arith}
use why.Machine.Types.{Endianness}
use why.Machine.State.{ok}
use why.Machine.Memory.{get_word}
use why.Ops.Decode.{
  RFields, IFields, JFields, decode_r, decode_i, decode_j, decode_opcode, compile_r, compile_i,
  compile_j, swap_endian,
}
use why.Ops.Decode.RoundTrip.{decode_r-compile_r, decode_i-compile_i, decode_j-compile_j}
use why.Ops.Decode.Swap.{get_word-swap_endian}
use why.Tests.{machine, machine-IsSized, machine-HoldsBytes}

abbrev pub add_fields : RFields
add_fields = record { rs = 3; rt = 4; rd = 127; conditions = 9; flags = 2; funct = 1 }

decode_r-compile_r_example :
    (decode_opcode (compile_r 1 add_fields) ≡ 1) × (decode_r (compile_r 1 add_fields) ≡ add_fields)
decode_r-compile_r_example = decode_r-compile_r 1 add_fields record {
  opcode_fits = omega arith;
  rs = omega arith;
  rt = omega arith;
  rd = omega arith;
  conditions = omega arith;
  flags = omega arith;
  funct = omega arith;
}

abbrev pub addi_fields : IFields
addi_fields = record { rs = 3; rd = 127; conditions = 9; flags = 2; immediate = 4294967295 }

decode_i-compile_i_example :
    (decode_opcode (compile_i 3 addi_fields) ≡ 3)
    × (decode_i (compile_i 3 addi_fields) ≡ addi_fields)
decode_i-compile_i_example = decode_i-compile_i 3 addi_fields record {
  opcode_fits = omega arith;
  rs = omega arith;
  rd = omega arith;
  conditions = omega arith;
  flags = omega arith;
  immediate = omega arith;
}

abbrev jump_fields : JFields
jump_fields = record { rs = 3; link = true; conditions = 9; flags = 2; address = 4096 }

decode_j-compile_j_example :
    (decode_opcode (compile_j 15 jump_fields) ≡ 15)
    × (decode_j (compile_j 15 jump_fields) ≡ jump_fields)
decode_j-compile_j_example = decode_j-compile_j 15 jump_fields record {
  opcode_fits = omega arith;
  rs = omega arith;
  conditions = omega arith;
  flags = omega arith;
  address = omega arith;
}

get_word-swap_endian_example :
    (w : ℕ) × (get_word 8 Endianness.big machine ≡ ok w machine)
    × (get_word 8 Endianness.little machine ≡ ok (swap_endian w) machine)
get_word-swap_endian_example =
    get_word-swap_endian machine 8 machine-IsSized machine-HoldsBytes (omega arith)
