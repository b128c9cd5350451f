-- ===== src/Object/Parse/Parts.antt =====
-- The parts of an object between its offsets.
use why.Base.{
  ℕ, ◌+◌, ◌-◌, ◌*◌, ◌/◌, ◌^◌, ◌≤◌, ◌<◌, ◌≡◌, refl, sym, ap, ◌∙◌, true, List, [], ◌∷◌, ◌++◌, map,
  length, length-append, take, drop, leb, arith, All,
}
use mathlib.Core.List.{append_assoc, append-nil}
use why.Object.Result.{done, index, ◌>>=◌}
use why.Object.Symbols.{SymbolTableEntry, encode_symbol_table, extract_symbols}
use why.Object.Symbols.RoundTrip.{IsEntry, extract_symbols-encode_symbol_table}
use why.Object.Debug.{DebugEntry, encode_debug_data, get_debug_data}
use why.Object.Debug.RoundTrip.{get_debug_data-encode_debug_data}
use why.Object.Debug.Names.{FitsDebug}
use why.Object.Instruction.{AnyInstruction, encode_instruction}
use why.Object.Instruction.Agreement.{IsInstruction, parse_instruction-encode_instruction}
use why.Object.Parse.{slice, parse_code}

drop_front : (before rest : List ℕ) → drop (length before) (before ++ rest) ≡ rest
drop_front [] rest = refl
drop_front (b ∷ before) rest = drop_front before rest

take_front : (middle after : List ℕ) → take (length middle) (middle ++ after) ≡ middle
take_front [] after = refl
take_front (m ∷ middle) after = ap (λ (t : List ℕ). m ∷ t) (take_front middle after)

-- The slice of a part, between the words of its two offsets.
slice_part :
    (raw before middle after : List ℕ) (first last : ℕ)
    → raw ≡ before ++ (middle ++ after)
    → first ≡ length before
    → last ≡ length before + length middle
    → slice raw first last ≡ done middle
unfolding slice
slice_part raw before middle after first last e f g =
    let total : length raw ≡ length before + (length middle + length after) =
      ap length e
      ∙ omega (arith, length-append before (middle ++ after), length-append middle after) in
    let in_order : leb first last ≡ true = ground arith in
    let inside : leb last (length raw) ≡ true = ground arith in
    let count : last - first ≡ length middle = omega arith in
    let part : take (last - first) (drop first raw) ≡ middle =
      rw (count, f, e, drop_front before (middle ++ after)) (take_front middle after) in
    rw (in_order, inside) (ap done part)

pub parse_code_lem :
    (code : List AnyInstruction)
    → All IsInstruction code
    → parse_code (map encode_instruction code) ≡ done code
unfolding parse_code ◌>>=◌
parse_code_lem [] h = refl
parse_code_lem (a ∷ code) h =
    rw (parse_instruction-encode_instruction a h.0, parse_code_lem code h.1) refl

-- An object whose offsets stand in its head, before its parts.
pub record IsObject (raw head code data_longs symbols debug relocation : List ℕ) : Type 0 where
  pub parts : raw ≡ head ++ (code ++ (data_longs ++ (symbols ++ (debug ++ relocation))))
  pub at_code : index raw 0 ≡ done (8 * length head)
  pub at_data : index raw 1 ≡ done (8 * (length head + length code))
  pub at_symbols : index raw 2 ≡ done (8 * (length head + length code + length data_longs))
  pub at_debug :
      index raw 3 ≡ done (8 * (length head + length code + length data_longs + length symbols))
  pub at_relocation :
      index raw 4
      ≡ done (8 * (length head + length code + length data_longs + length symbols + length debug))
  pub at_end :
      index raw 5
      ≡ done (
          8
          * (length head
              + length code
              + length data_longs
              + length symbols
              + length debug
              + length relocation))

-- The slice of a part at offsets in bytes.
slice_bytes :
    (raw before middle after : List ℕ) (first last : ℕ)
    → raw ≡ before ++ (middle ++ after)
    → first ≡ length before
    → last ≡ length before + length middle
    → slice raw (8 * first / 8) (8 * last / 8) ≡ done middle
slice_bytes raw before middle after first last e f g =
    slice_part raw before middle after (8 * first / 8) (8 * last / 8) e (omega arith) (omega arith)

symbols_parsed :
    (encode_symbol : List ℕ → ℕ) (table : List SymbolTableEntry) (raw out before after : List ℕ)
    → All (IsEntry encode_symbol) table
    → length table ≤ 1000000
    → encode_symbol_table table ≡ done out
    → length before + length out < 2 ^ 61
    → raw ≡ before ++ (out ++ after)
    → index raw 2 ≡ done (8 * length before)
    → index raw 3 ≡ done (8 * (length before + length out))
    → extract_symbols encode_symbol raw ≡ done table
symbols_parsed encode_symbol table raw out before after valid few written small e start stop =
    rw e (
      extract_symbols-encode_symbol_table encode_symbol table out before after valid few written
        small (rw (sym e) start) (rw (sym e) stop))

debug_parsed :
    (debug : List DebugEntry) (raw out before after : List ℕ)
    → All FitsDebug debug
    → encode_debug_data debug ≡ done out
    → raw ≡ before ++ (out ++ after)
    → index raw 3 ≡ done (8 * length before)
    → index raw 4 ≡ done (8 * (length before + length out))
    → get_debug_data raw ≡ done debug
debug_parsed debug raw out before after fits written e start stop = rw e (
    get_debug_data-encode_debug_data debug out before after fits written (rw (sym e) start)
      (rw (sym e) stop))

module _ (raw head raw_code raw_data out_symbols out_debug out_relocation : List ℕ)
    (object : IsObject raw head raw_code raw_data out_symbols out_debug out_relocation) where
  from_data :
      raw ≡ (head ++ raw_code) ++ (raw_data ++ (out_symbols ++ (out_debug ++ out_relocation)))
  from_data =
      object.parts
      ∙ sym
          (append_assoc head raw_code (raw_data ++ (out_symbols ++ (out_debug ++ out_relocation))))

  from_symbols :
      raw ≡ ((head ++ raw_code) ++ raw_data) ++ (out_symbols ++ (out_debug ++ out_relocation))
  from_symbols =
      from_data
      ∙ sym
          (append_assoc (head ++ raw_code) raw_data (out_symbols ++ (out_debug ++ out_relocation)))

  from_debug :
      raw ≡ (((head ++ raw_code) ++ raw_data) ++ out_symbols) ++ (out_debug ++ out_relocation)
  from_debug =
      from_symbols
      ∙ sym
          (append_assoc ((head ++ raw_code) ++ raw_data) out_symbols (out_debug ++ out_relocation))

  from_relocation :
      raw
      ≡ ((((head ++ raw_code) ++ raw_data) ++ out_symbols) ++ out_debug) ++ (out_relocation ++ [])
  from_relocation =
      from_debug
      ∙ sym
          (append_assoc (((head ++ raw_code) ++ raw_data) ++ out_symbols) out_debug out_relocation)
      ∙ ap (λ (t : List ℕ). ((((head ++ raw_code) ++ raw_data) ++ out_symbols) ++ out_debug) ++ t)
          (sym (append-nil out_relocation))

  data_start : length (head ++ raw_code) ≡ length head + length raw_code
  data_start = length-append head raw_code

  symbols_start :
      length ((head ++ raw_code) ++ raw_data) ≡ length head + length raw_code + length raw_data
  symbols_start = omega (arith, data_start, length-append (head ++ raw_code) raw_data)

  debug_start :
      length (((head ++ raw_code) ++ raw_data) ++ out_symbols)
      ≡ length head + length raw_code + length raw_data + length out_symbols
  debug_start =
      omega (arith, symbols_start, length-append ((head ++ raw_code) ++ raw_data) out_symbols)

  relocation_start :
      length ((((head ++ raw_code) ++ raw_data) ++ out_symbols) ++ out_debug)
      ≡ length head + length raw_code + length raw_data + length out_symbols + length out_debug
  relocation_start = omega (
    arith,
    debug_start,
    length-append (((head ++ raw_code) ++ raw_data) ++ out_symbols) out_debug,
  )

  -- The parts that parse() cuts out.
  pub slice_code :
      slice raw (8 * length head / 8) (8 * (length head + length raw_code) / 8) ≡ done raw_code
  slice_code = slice_bytes raw head raw_code _ _ _ object.parts refl refl

  pub slice_data :
      slice raw
        (8 * (length head + length raw_code) / 8)
        (8 * (length head + length raw_code + length raw_data) / 8)
      ≡ done raw_data
  slice_data =
      slice_bytes raw (head ++ raw_code) raw_data _ _ _ from_data (sym data_start)
        (omega (arith, data_start))

  pub slice_symbols :
      slice raw
        (8 * (length head + length raw_code + length raw_data) / 8)
        (8 * (length head + length raw_code + length raw_data + length out_symbols) / 8)
      ≡ done out_symbols
  slice_symbols =
      slice_bytes raw ((head ++ raw_code) ++ raw_data) out_symbols _ _ _ from_symbols
        (sym symbols_start) (omega (arith, symbols_start))

  pub slice_debug :
      slice raw (8 * (length head + length raw_code + length raw_data + length out_symbols) / 8) (
        8
        * (length head + length raw_code + length raw_data + length out_symbols + length out_debug)
        / 8)
      ≡ done out_debug
  slice_debug =
      slice_bytes raw (((head ++ raw_code) ++ raw_data) ++ out_symbols) out_debug _ _ _ from_debug
        (sym debug_start) (omega (arith, debug_start))

  pub slice_relocation :
      slice raw
        (8
          * (length head
              + length raw_code
              + length raw_data
              + length out_symbols
              + length out_debug)
          / 8)
        (8
          * (length head
              + length raw_code
              + length raw_data
              + length out_symbols
              + length out_debug
              + length out_relocation)
          / 8)
      ≡ done out_relocation
  slice_relocation =
      slice_bytes raw ((((head ++ raw_code) ++ raw_data) ++ out_symbols) ++ out_debug)
        out_relocation _ _ _ from_relocation (sym relocation_start)
        (omega (arith, relocation_start))

  pub symbols_read :
      (encode_symbol : List ℕ → ℕ) (table : List SymbolTableEntry)
      → All (IsEntry encode_symbol) table
      → length table ≤ 1000000
      → encode_symbol_table table ≡ done out_symbols
      → length head + length raw_code + length raw_data + length out_symbols < 2 ^ 61
      → extract_symbols encode_symbol raw ≡ done table
  symbols_read encode_symbol table valid few written small =
      symbols_parsed encode_symbol table raw out_symbols ((head ++ raw_code) ++ raw_data)
        (out_debug ++ out_relocation) valid few written (omega (arith, symbols_start)) from_symbols
        (object.at_symbols ∙ ap (λ (z : ℕ). done (8 * z)) (sym symbols_start))
        (object.at_debug ∙ ap (λ (z : ℕ). done (8 * (z + length out_symbols))) (sym symbols_start))

  pub debug_read :
      (debug : List DebugEntry)
      → All FitsDebug debug
      → encode_debug_data debug ≡ done out_debug
      → get_debug_data raw ≡ done debug
  debug_read debug fits written =
      debug_parsed debug raw out_debug (((head ++ raw_code) ++ raw_data) ++ out_symbols)
        out_relocation fits written from_debug
        (object.at_debug ∙ ap (λ (z : ℕ). done (8 * z)) (sym debug_start))
        (object.at_relocation ∙ ap (λ (z : ℕ). done (8 * (z + length out_debug))) (sym debug_start))

  pub slice_meta : slice raw 0 (8 * length head / 8) ≡ done head
  slice_meta = slice_bytes raw [] head _ 0 (length head) object.parts refl (omega arith)
