-- ===== src/Object/Relocations/RoundTrip.antt =====
-- getRelocationData reads what encodeRelocationData writes, and the other way round.
use why.Base.{
  ℕ, ◌+◌, ◌*◌, ◌/◌, ◌%◌, ◌^◌, ◌<◌, ◌≡◌, refl, Bool, true, false, List, [], ◌∷◌, All, ◌==◌, bit_or,
  of_bool, arith,
}
use why.Base.Bits.{bit_or_above}
use why.Object.Result.{done, ◌>>=◌}
use why.Object.Relocations.{
  RelocationData, encode_relocation, decode_relocation, encode_relocation_data, get_relocation_data,
}

-- The widths of the members.
pub record FitsRelocation (r : RelocationData) : Type 0 where
  pub type_fits : r.type < 2 ^ 2
  pub index_fits : r.symbol_index < 2 ^ 61

first_word :
    (b : Bool) (type symbol_index : ℕ)
    → type < 2 ^ 2
    → symbol_index < 2 ^ 61
    → bit_or (bit_or (of_bool b) (type % 2 ^ 2 * 2)) (symbol_index * 2 ^ 3 % 2 ^ 64)
      ≡ symbol_index * 8 + type * 2 + of_bool b
first_word b type symbol_index h k =
    let narrow : type % 2 ^ 2 ≡ type = omega arith in
    let wide : symbol_index * 2 ^ 3 % 2 ^ 64 ≡ symbol_index * 2 ^ 3 = omega arith in
    let bit : of_bool b < 2 = ground arith in
    let low = bit_or_above 1 type (of_bool b) bit in
    rw (narrow, wide, low)
      (omega (arith, bit_or_above 3 symbol_index (of_bool b + type * 2 ^ 1) (omega arith)))

bit_flag : (b : Bool) (x n : ℕ) → n ≡ x * 2 + of_bool b → (n % 2 == 1) ≡ b
bit_flag true x n e = ground arith
bit_flag false x n e = ground arith

decode_relocation-first_word :
    (r : RelocationData) (n : ℕ)
    → n ≡ r.symbol_index * 8 + r.type * 2 + of_bool r.is_data
    → FitsRelocation r
    → decode_relocation n r.offset r.section_offset ≡ r
unfolding decode_relocation
decode_relocation-first_word r n e fits =
    let flag : (n % 2 == 1) ≡ r.is_data =
      bit_flag r.is_data (r.symbol_index * 4 + r.type) n (omega arith) in
    let one_bit : of_bool r.is_data < 2 = ground arith in
    let middle : n / 2 % 2 ^ 2 ≡ r.type = omega (arith, fits.type_fits) in
    let high : n / 2 ^ 3 ≡ r.symbol_index = omega (arith, fits.type_fits) in
    rw (flag, middle, high) refl

-- Relocation entries whose fields fit their widths are read back as they were written.
pub get_relocation_data-encode_relocation_data :
    (relocation : List RelocationData)
    → All FitsRelocation relocation
    → get_relocation_data (encode_relocation_data relocation) ≡ done relocation
unfolding get_relocation_data encode_relocation_data encode_relocation ◌>>=◌
get_relocation_data-encode_relocation_data [] h = refl
get_relocation_data-encode_relocation_data (r ∷ relocation) h =
    let first = first_word r.is_data r.type r.symbol_index h.0.type_fits h.0.index_fits in
    rw
      (
        decode_relocation-first_word r _ first h.0,
        get_relocation_data-encode_relocation_data relocation h.1,
      )
      refl
