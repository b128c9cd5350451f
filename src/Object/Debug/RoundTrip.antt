-- ===== src/Object/Debug/RoundTrip.antt =====
-- getDebugData reads what encodeDebugData writes.
use why.Base.{
  ℕ, zero, suc, ◌+◌, ◌-◌, ◌*◌, ◌/◌, ◌≤◌, ◌<◌, ◌≡◌, refl, sym, List, [], ◌∷◌, ◌++◌, length,
  length-append, All, arith, lt→ltb, le→ltb,
}
use why.Object.Result.{done, index, fail_if, ◌>>=◌}
use why.Object.Words.{get_longs}
use why.Object.At.{At, At-left, At-right, At-append}
use why.Object.Debug.{
  DebugEntry, filename, function, location, string_bytes, encode_string, location_bytes,
  encode_debug_entry, encode_debug_data, byte_at, read_name_entry, read_typed, read_entry,
  debug_loop, get_debug_data,
}
use why.Object.Debug.Names.{FitsDebug, read_string_entry}
use why.Object.Debug.Location.{read_location_entry}

typed_filename :
    (raw : List ℕ) (i w : ℕ)
    → byte_at w 0 ≡ 1
    → read_typed raw i w ≡ read_name_entry filename raw i w
unfolding read_typed
typed_filename raw i w e = rw e refl

typed_function :
    (raw : List ℕ) (i w : ℕ)
    → byte_at w 0 ≡ 2
    → read_typed raw i w ≡ read_name_entry function raw i w
unfolding read_typed
typed_function raw i w e = rw e refl

-- The words of an entry that fits.
abbrev entry_words : DebugEntry → List ℕ
entry_words (filename value) = get_longs (string_bytes 1 value)
entry_words (function value) = get_longs (string_bytes 2 value)
entry_words (location file_index line column function_index count address) =
    get_longs (location_bytes file_index line column function_index count address)

abbrev all_words : List DebugEntry → List ℕ
all_words [] = []
all_words (entry ∷ debug) = entry_words entry ++ all_words debug

encode_debug_entry_lem :
    (entry : DebugEntry) → FitsDebug entry → encode_debug_entry entry ≡ done (entry_words entry)
unfolding encode_debug_entry encode_string fail_if ◌>>=◌
encode_debug_entry_lem (filename value) h =
    rw (le→ltb 16777215 (length value) (omega (arith, h.1))) refl
encode_debug_entry_lem (function value) h =
    rw (le→ltb 16777215 (length value) (omega (arith, h.1))) refl
encode_debug_entry_lem (location file_index line column function_index count address) h = refl

encode_debug_data_lem :
    (debug : List DebugEntry)
    → All FitsDebug debug
    → encode_debug_data debug ≡ done (all_words debug)
unfolding encode_debug_data ◌>>=◌
encode_debug_data_lem [] h = refl
encode_debug_data_lem (entry ∷ debug) h =
    rw (encode_debug_entry_lem entry h.0, encode_debug_data_lem debug h.1) refl

-- One entry is read where its words stand.
read_entry-At :
    (raw : List ℕ) (entry : DebugEntry) (i : ℕ)
    → FitsDebug entry
    → At raw i (entry_words entry)
    → (last : ℕ) × (read_entry raw i ≡ done (entry, last))
      × (i ≤ last)
      × (last + 1 ≡ i + length (entry_words entry))
read_entry-At raw (filename value) i h at =
    read_string_entry raw i filename value _ 1 (typed_filename raw i) (omega arith) h.0 h.1 refl at
read_entry-At raw (function value) i h at =
    read_string_entry raw i function value _ 2 (typed_function raw i) (omega arith) h.0 h.1 refl at
read_entry-At raw (location file_index line column function_index count address) i h at =
    read_location_entry file_index line column function_index count address raw _ i h refl at

debug_loop_step :
    (raw : List ℕ) (stop rounds i last : ℕ) (entry : DebugEntry) (rest : List DebugEntry)
    → i < stop
    → read_entry raw i ≡ done (entry, last)
    → debug_loop raw stop rounds (last + 1) ≡ done rest
    → debug_loop raw stop (suc rounds) i ≡ done (entry ∷ rest)
unfolding debug_loop ◌>>=◌
debug_loop_step raw stop rounds i last entry rest h e f =
    rw (lt→ltb i stop h, debug_loop, e, f) refl

debug_loop-At :
    (raw : List ℕ) (debug : List DebugEntry) (stop rounds i : ℕ)
    → All FitsDebug debug
    → stop ≤ i + rounds
    → stop ≡ i + length (all_words debug)
    → At raw i (all_words debug)
    → debug_loop raw stop rounds i ≡ done debug
unfolding debug_loop
debug_loop-At raw [] stop zero i h enough ends at = refl
debug_loop-At raw [] stop (suc rounds) i h enough ends at =
    rw (le→ltb i stop (omega arith), debug_loop) refl
debug_loop-At raw (entry ∷ debug) stop zero i h enough ends at =
    let (last, read, forward, next) =
      read_entry-At raw entry i h.0 (At-left raw i (entry_words entry) (all_words debug) at) in
    let total = length-append (entry_words entry) (all_words debug) in absurd (omega arith)
debug_loop-At raw (entry ∷ debug) stop (suc rounds) i h enough ends at =
    let words = entry_words entry in
    let here = At-left raw i words (all_words debug) at in
    let (last, read, forward, next) = read_entry-At raw entry i h.0 here in
    let there = rw (sym next) at (At-right raw i words (all_words debug) at) in
    let total = length-append words (all_words debug) in
    debug_loop_step raw stop rounds i last entry debug (omega arith) read
      (debug_loop-At raw debug stop rounds (last + 1) h.1 (omega arith) (omega arith) there)

-- Debug data that encodeDebugData wrote is read back as it was by getDebugData, wherever it stands in
-- the object between the two offsets, if the entries fit the format.
pub get_debug_data-encode_debug_data :
    (debug : List DebugEntry) (out before after : List ℕ)
    → All FitsDebug debug
    → encode_debug_data debug ≡ done out
    → index (before ++ (out ++ after)) 3 ≡ done (8 * length before)
    → index (before ++ (out ++ after)) 4 ≡ done (8 * (length before + length out))
    → get_debug_data (before ++ (out ++ after)) ≡ done debug
unfolding get_debug_data ◌>>=◌
get_debug_data-encode_debug_data debug out before after h e start stop =
    let words : all_words debug ≡ out = cc (e, encode_debug_data_lem debug h) in
    let raw = before ++ (out ++ after) in
    let at : At raw (length before) (all_words debug) = rw words (At-append before out after) in
    let from_word : 8 * length before / 8 ≡ length before = omega arith in
    let to_word : 8 * (length before + length out) / 8 ≡ length before + length out = omega arith in
    rw (start, stop, from_word, to_word)
      (debug_loop-At raw debug (length before + length out)
        (length before + length out - length before) (length before) h (omega arith) (rw words refl)
        at)
