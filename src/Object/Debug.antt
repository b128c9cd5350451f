-- ===== src/Object/Debug.antt =====
-- Debug data: wasmc/include/wasm/Debug.h, encodeDebugData of wasmc/src/wasm/Linker.cpp and
-- getDebugData of wasmc/src/wasm/BinaryParser.cpp.
mod Strings
pub mod Names
mod Location
pub mod RoundTrip
use why.Base.{
  ℕ, zero, suc, ◌+◌, ◌-◌, ◌*◌, ◌/◌, ◌%◌, ◌^◌, Bool, true, false, List, [], ◌∷◌, ◌++◌, length, ltb,
  ◌==◌, if◌then◌else◌, bit_or,
}
use why.Machine.Memory.{split_bytes}
use why.Object.Result.{Error, Result, done, fails, index, fail_if, ◌>>=◌, ◌>>◌}
use why.Object.Words.{get_longs}

-- Debug.h: DebugFilename, DebugFunction and DebugLocation, with the types' numbers.
pub data DebugEntry : Type 0 where
  filename : List ℕ → DebugEntry
  function : List ℕ → DebugEntry
  location : (file_index line column function_index count address : ℕ) → DebugEntry

-- The bytes of an entry with a string.
unfoldable pub string_bytes : ℕ → List ℕ → List ℕ
string_bytes type value =
    let n = length value in
    type ∷ ((n % 2 ^ 8) ∷ ((n / 2 ^ 8 % 2 ^ 8) ∷ ((n / 2 ^ 16 % 2 ^ 8) ∷ value)))

unfoldable pub encode_string : ℕ → List ℕ → Result (List ℕ)
unfolding string_bytes get_longs fail_if ◌>>=◌
encode_string type value = do
  fail_if (ltb 16777215 (length value)) Error.too_long
  done (get_longs (string_bytes type value))

-- The bytes of a location; `add(number, n)` appends the n low bytes of a number.
unfoldable pub location_bytes : (file_index line column function_index count address : ℕ) → List ℕ
unfolding split_bytes
location_bytes file_index line column function_index count address =
    3
    ∷ (split_bytes 3 file_index
        ++ (split_bytes 4 line
            ++ (split_bytes 3 column
                ++ ((count % 2 ^ 8) ∷ (split_bytes 4 function_index ++ split_bytes 8 address)))))

unfoldable pub encode_debug_entry : DebugEntry → Result (List ℕ)
unfolding encode_string location_bytes get_longs
encode_debug_entry (filename value) = encode_string 1 value
encode_debug_entry (function value) = encode_string 2 value
encode_debug_entry (location file_index line column function_index count address) =
    done (get_longs (location_bytes file_index line column function_index count address))

-- Linker::encodeDebugData.
unfoldable pub encode_debug_data : List DebugEntry → Result (List ℕ)
unfolding encode_debug_entry ◌>>=◌
encode_debug_data [] = done []
encode_debug_data (entry ∷ debug) = do
  here ← encode_debug_entry entry
  out ← encode_debug_data debug
  done (here ++ out)

-- The lambda `get` of getDebugData, and `n` bytes from one on, put together with `|`.
unfoldable pub byte_at : ℕ → ℕ → ℕ
byte_at piece k = piece / 2 ^ (8 * k) % 2 ^ 8

unfoldable pub field_at : ℕ → ℕ → ℕ → ℕ
unfolding byte_at
field_at piece k zero = 0
field_at piece k (suc n) = bit_or (field_at piece (k + 1) n * 2 ^ 8) (byte_at piece k)

-- `if (mod == 0) piece = raw[++i];`, with the index and the piece after it.
unfoldable pub next_piece : List ℕ → ℕ → ℕ → ℕ → Result (ℕ × ℕ)
unfolding index ◌>>=◌
next_piece raw j i piece = elim (j % 8 == 0) [
  | true ↦ do loaded ← index raw (i + 1); done (i + 1, loaded)
  | false ↦ done (i, piece)
]

-- The characters of a string from byte `j` of an entry on, with the index of the last word.
unfoldable pub read_string : List ℕ → ℕ → ℕ → ℕ → ℕ → Result (List ℕ × ℕ)
unfolding next_piece byte_at ◌>>=◌
read_string raw zero j i piece = done ([], i)
read_string raw (suc n) j i piece = do
  (here, loaded) ← next_piece raw j i piece
  (rest, last) ← read_string raw n (j + 1) here loaded
  done (byte_at loaded (j % 8) ∷ rest, last)

-- A location, whose first word stands at `i`.
unfoldable pub read_location : List ℕ → ℕ → ℕ → Result (DebugEntry × ℕ)
unfolding index field_at byte_at ◌>>=◌
read_location raw i piece = do
  second ← index raw (i + 1)
  address ← index raw (i + 2)
  done (
    location (field_at piece 1 3) (field_at piece 4 4) (field_at second 0 3) (field_at second 4 4)
        (byte_at second 3) address,
    i + 2,
  )

unfoldable pub read_name_entry : (List ℕ → DebugEntry) → List ℕ → ℕ → ℕ → Result (DebugEntry × ℕ)
unfolding read_string field_at ◌>>=◌
read_name_entry make raw i piece = do
  (value, last) ← read_string raw (field_at piece 1 3) 4 i piece
  done (make value, last)

-- One round of the loop: the entry at `i`, and the index of its last word.
unfoldable pub read_typed : List ℕ → ℕ → ℕ → Result (DebugEntry × ℕ)
unfolding read_name_entry read_location byte_at
read_typed raw i piece =
    let type = byte_at piece 0 in
    if type == 1
    then read_name_entry filename raw i piece
    else if type == 2
    then read_name_entry function raw i piece
    else if type == 3
    then read_location raw i piece
    else fails Error.invalid_debug_type

unfoldable pub read_entry : List ℕ → ℕ → Result (DebugEntry × ℕ)
unfolding index read_typed ◌>>=◌
read_entry raw i = do piece ← index raw i; read_typed raw i piece

-- The loop. Every round moves `i`, so that as many rounds as there are words are enough.
unfoldable pub debug_loop : List ℕ → ℕ → ℕ → ℕ → Result (List DebugEntry)
unfolding read_entry ◌>>=◌
debug_loop raw stop zero i = done []
debug_loop raw stop (suc rounds) i = elim (ltb i stop) [
  | true ↦ do
    (entry, last) ← read_entry raw i
    rest ← debug_loop raw stop rounds (last + 1)
    done (entry ∷ rest)
  | false ↦ done []
]

-- getDebugData; `offsets.debug` and `offsets.relocation` are the words 3 and 4.
unfoldable pub get_debug_data : List ℕ → Result (List DebugEntry)
unfolding index debug_loop ◌>>=◌
get_debug_data raw = do
  debug_offset ← index raw 3
  relocation_offset ← index raw 4
  debug_loop raw (relocation_offset / 8) (relocation_offset / 8 - debug_offset / 8)
      (debug_offset / 8)
