-- ===== src/Object/Parse/Layout.antt =====
-- An object that is laid out is parsed into its parts.
use why.Base.{
  ℕ, ◌+◌, ◌*◌, ◌%◌, ◌^◌, ◌≤◌, ◌<◌, ◌≡◌, refl, sym, ap, List, ◌∷◌, ◌++◌, map, length, arith, All,
}
use why.Object.Result.{done, index, ◌>>=◌}
use why.Object.Symbols.{SymbolTableEntry, encode_symbol_table}
use why.Object.Symbols.RoundTrip.{IsEntry}
use why.Object.Relocations.{RelocationData, encode_relocation_data}
use why.Object.Relocations.RoundTrip.{FitsRelocation, get_relocation_data-encode_relocation_data}
use why.Object.Debug.{DebugEntry, encode_debug_data}
use why.Object.Debug.Names.{FitsDebug}
use why.Object.Instruction.{AnyInstruction, encode_instruction}
use why.Object.Instruction.Agreement.{IsInstruction}
use why.Object.Parse.{lay_out, Metadata, parse_metadata, parse_object}
use why.Object.Parse.Parts.{
  IsObject, slice_meta, slice_symbols, slice_code, slice_data, slice_debug, slice_relocation,
  symbols_read, debug_read, parse_code_lem,
}

no_wrap : (n k : ℕ) → n + k < 2 ^ 61 → (8 * n + k * 8) % 2 ^ 64 ≡ 8 * (n + k)
no_wrap n k small = omega arith

-- lay_out writes these offsets if the object's size fits a word.
lay_out-IsObject :
    (m1 m2 m3 m4 m5 : ℕ) (strings code data_longs symbols debug relocation linked : List ℕ)
    → 6
        + length strings
        + length code
        + length data_longs
        + length symbols
        + length debug
        + length relocation
      < 2 ^ 61
    → lay_out
        ((8 * (6 + length strings)) ∷ (m1 ∷ (m2 ∷ (m3 ∷ (m4 ∷ (m5 ∷ strings))))))
        code
        data_longs
        symbols
        debug
        relocation
      ≡ done linked
    → (head : List ℕ) × IsObject linked head code data_longs symbols debug relocation
      × (length head ≡ 6 + length strings)
unfolding lay_out index
lay_out-IsObject m1 m2 m3 m4 m5 strings code data_longs symbols debug relocation linked small e =
    let h = 6 + length strings in
    let c = length code in
    let d = length data_longs in
    let s = length symbols in
    let b = length debug in
    let r = length relocation in
    let w1 : (8 * h + c * 8) % 2 ^ 64 ≡ 8 * (h + c) = no_wrap h c (omega arith) in
    let w2 : (8 * (h + c) + d * 8) % 2 ^ 64 ≡ 8 * (h + c + d) = no_wrap (h + c) d (omega arith) in
    let w3 : (8 * (h + c + d) + s * 8) % 2 ^ 64 ≡ 8 * (h + c + d + s) =
      no_wrap (h + c + d) s (omega arith) in
    let w4 : (8 * (h + c + d + s) + b * 8) % 2 ^ 64 ≡ 8 * (h + c + d + s + b) =
      no_wrap (h + c + d + s) b (omega arith) in
    let w5 : (8 * (h + c + d + s + b) + r * 8) % 2 ^ 64 ≡ 8 * (h + c + d + s + b + r) =
      no_wrap (h + c + d + s + b) r (omega arith) in
    let head =
      (8 * h)
      ∷ ((8 * (h + c))
          ∷ ((8 * (h + c + d))
              ∷ ((8 * (h + c + d + s))
                  ∷ ((8 * (h + c + d + s + b)) ∷ ((8 * (h + c + d + s + b + r)) ∷ strings))))) in
    let size : length head ≡ h = omega arith in
    let written : done (head ++ (code ++ (data_longs ++ (symbols ++ (debug ++ relocation)))))
        ≡ done linked =
      rw (w1, w2, w3, w4, w5) at e in
    let parts : linked ≡ head ++ (code ++ (data_longs ++ (symbols ++ (debug ++ relocation)))) =
      cc written in
    (
      head,
      record {
        parts = parts;
        at_code = rw parts (ap (λ (z : ℕ). done (8 * z)) (sym size));
        at_data = rw parts (ap (λ (z : ℕ). done (8 * (z + c))) (sym size));
        at_symbols = rw parts (ap (λ (z : ℕ). done (8 * (z + c + d))) (sym size));
        at_debug = rw parts (ap (λ (z : ℕ). done (8 * (z + c + d + s))) (sym size));
        at_relocation = rw parts (ap (λ (z : ℕ). done (8 * (z + c + d + s + b))) (sym size));
        at_end = rw parts (ap (λ (z : ℕ). done (8 * (z + c + d + s + b + r))) (sym size));
      },
      size,
    )

-- An object whose parts are encoded as Linker::link encodes them and laid out as it lays them out is
-- parsed by parse() into those parts, whatever stood in the head's offsets before, if the entries and
-- the instructions fit the format, there are at most MAX_SYMBOLS symbols, the object's size fits a
-- word and the strings of the head parse.
pub parse_object-lay_out :
    (encode_symbol : List ℕ → ℕ) (m1 m2 m3 m4 m5 : ℕ)
    (strings raw_data out_symbols out_debug linked : List ℕ) (code : List AnyInstruction)
    (table : List SymbolTableEntry) (debug : List DebugEntry) (relocation : List RelocationData)
    (metadata : Metadata)
    → All IsInstruction code
    → All (IsEntry encode_symbol) table
    → All FitsDebug debug
    → All FitsRelocation relocation
    → length table ≤ 1000000
    → encode_symbol_table table ≡ done out_symbols
    → encode_debug_data debug ≡ done out_debug
    → 6
        + length strings
        + length (map encode_instruction code)
        + length raw_data
        + length out_symbols
        + length out_debug
        + length (encode_relocation_data relocation)
      < 2 ^ 61
    → lay_out
        ((8 * (6 + length strings)) ∷ (m1 ∷ (m2 ∷ (m3 ∷ (m4 ∷ (m5 ∷ strings))))))
        (map encode_instruction code)
        raw_data
        out_symbols
        out_debug
        (encode_relocation_data relocation)
      ≡ done linked
    → parse_metadata linked (8 * (6 + length strings)) ≡ done metadata
    → parse_object encode_symbol linked
      ≡ done (record {
        metadata = metadata;
        symbols = table;
        raw_code = map encode_instruction code;
        code = code;
        raw_data = raw_data;
        debug_data = debug;
        relocation_data = relocation;
      })
unfolding parse_object ◌>>=◌
parse_object-lay_out encode_symbol m1 m2 m3 m4 m5 strings raw_data out_symbols out_debug linked code
      table debug relocation metadata is_code is_table is_debug is_relocation few symbols_written
      debug_written small laid named =
    let raw_code = map encode_instruction code in
    let out = encode_relocation_data relocation in
    let (head, object, size) =
      lay_out-IsObject m1 m2 m3 m4 m5 strings raw_code raw_data out_symbols out_debug out linked
        small laid in
    let named_here : parse_metadata linked (8 * length head) ≡ done metadata = rw size named in
    rw
      (
        object.at_code,
        object.at_data,
        object.at_symbols,
        object.at_debug,
        object.at_relocation,
        object.at_end,
        slice_meta linked head raw_code raw_data out_symbols out_debug out object,
        named_here,
        slice_symbols linked head raw_code raw_data out_symbols out_debug out object,
        symbols_read linked head raw_code raw_data out_symbols out_debug out object encode_symbol
            table is_table few symbols_written (omega arith),
        slice_code linked head raw_code raw_data out_symbols out_debug out object,
        parse_code_lem code is_code,
        slice_data linked head raw_code raw_data out_symbols out_debug out object,
        slice_debug linked head raw_code raw_data out_symbols out_debug out object,
        debug_read linked head raw_code raw_data out_symbols out_debug out object debug is_debug
            debug_written,
        slice_relocation linked head raw_code raw_data out_symbols out_debug out object,
        get_relocation_data-encode_relocation_data relocation is_relocation,
      )
      refl
