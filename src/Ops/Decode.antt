-- ===== src/Ops/Decode.antt =====
-- Instruction words: decodeRType, decodeIType and decodeJType of wvm/src/Operations.cpp, and the
-- encoders compileR, compileI and compileJ of the assembler, wasmc/src/wasm/Assembler.cpp.
pub mod RoundTrip
pub mod Swap
use why.Base.{ℕ, ◌*◌, ◌/◌, ◌%◌, ◌^◌, Bool, of_bool, bit_or, reverse}
use why.Machine.Types.{bit_at}
use why.Machine.Memory.{split_bytes, join_bytes}

-- The out-parameters of the three decoders.
pub record RFields : Type 0 where
  pub rs : ℕ
  pub rt : ℕ
  pub rd : ℕ
  pub conditions : ℕ
  pub flags : ℕ
  pub funct : ℕ

pub record IFields : Type 0 where
  pub rs : ℕ
  pub rd : ℕ
  pub conditions : ℕ
  pub flags : ℕ
  pub immediate : ℕ

pub record JFields : Type 0 where
  pub rs : ℕ
  pub link : Bool
  pub conditions : ℕ
  pub flags : ℕ
  pub address : ℕ

-- `(instr >> shift) & (2 ^ width - 1)`.
abbrev pub bits : ℕ → ℕ → ℕ → ℕ
bits instr shift width = instr / 2 ^ shift % 2 ^ width

unfoldable pub decode_r : ℕ → RFields
decode_r instr = record {
  rs = bits instr 38 7;
  rt = bits instr 45 7;
  rd = bits instr 31 7;
  conditions = bits instr 14 4;
  flags = bits instr 12 2;
  funct = instr % 2 ^ 12;
}

unfoldable pub decode_i : ℕ → IFields
decode_i instr = record {
  rs = bits instr 39 7;
  rd = bits instr 32 7;
  conditions = bits instr 48 4;
  flags = bits instr 46 2;
  immediate = instr % 2 ^ 32;
}

unfoldable pub decode_j : ℕ → JFields
decode_j instr = record {
  rs = bits instr 45 7;
  link = bit_at 44 instr;
  conditions = bits instr 34 4;
  flags = bits instr 32 2;
  address = instr % 2 ^ 32;
}

-- The opcode, as `execute` takes it from an instruction.
unfoldable pub decode_opcode : ℕ → ℕ
decode_opcode instr = bits instr 52 12

-- Util::swapEndian, by the bytes.
unfoldable pub swap_endian : ℕ → ℕ
unfolding split_bytes join_bytes
swap_endian n = join_bytes (reverse (split_bytes 8 n))

-- The assembler's side. The shifts of the operands, which are narrower than 64 bits, lose nothing
-- below the last one.
unfoldable pub compile_r : ℕ → RFields → ℕ
compile_r opcode r = bit_or (opcode * 2 ^ 52 % 2 ^ 64) (
    bit_or (r.rt * 2 ^ 45 % 2 ^ 64) (
      bit_or (r.rs * 2 ^ 38 % 2 ^ 64) (
        bit_or (r.rd * 2 ^ 31 % 2 ^ 64)
          (bit_or (r.conditions * 2 ^ 14 % 2 ^ 64) (bit_or (r.flags * 2 ^ 12 % 2 ^ 64) r.funct)))))

unfoldable pub compile_i : ℕ → IFields → ℕ
compile_i opcode r = bit_or (opcode * 2 ^ 52 % 2 ^ 64) (
    bit_or (r.conditions * 2 ^ 48 % 2 ^ 64) (
      bit_or (r.flags * 2 ^ 46 % 2 ^ 64)
        (bit_or (r.rs * 2 ^ 39 % 2 ^ 64) (bit_or (r.rd * 2 ^ 32 % 2 ^ 64) r.immediate))))

unfoldable pub compile_j : ℕ → JFields → ℕ
compile_j opcode r = bit_or (opcode * 2 ^ 52 % 2 ^ 64) (
    bit_or (r.rs * 2 ^ 45 % 2 ^ 64) (
      bit_or (of_bool r.link * 2 ^ 44 % 2 ^ 64)
        (bit_or (r.conditions * 2 ^ 34 % 2 ^ 64) (bit_or (r.flags * 2 ^ 32 % 2 ^ 64) r.address))))
