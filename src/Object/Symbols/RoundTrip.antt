-- ===== src/Object/Symbols/RoundTrip.antt =====
-- extractSymbols reads what encodeSymbolTable writes.
use why.Base.{
  ℕ, zero, suc, ◌+◌, ◌-◌, ◌*◌, ◌/◌, ◌%◌, ◌^◌, ◌≤◌, ◌<◌, ◌≡◌, refl, ap, ◌∙◌, true, false, List, [],
  ◌∷◌, ◌++◌, length, length-append, All, ltb, leb, ◌==◌, bit_or, extend16, arith, lt→ltb, le→ltb,
}
use why.Base.Bits.{bit_or_fields, bit_or_low}
use why.Object.Result.{done, index, fail_if, ◌>>=◌}
use why.Object.Words.{updiv, get_longs_str}
use why.Object.Words.Packing.{
  bytes_of, zeros, length-zeros, length-bytes_of, bytes_of-get_longs, get_longs_str-get_longs,
}
use why.Object.At.{At, At-left, At-right, At-append}
use why.Object.Symbols.{
  SymbolTableEntry, encode_entry, encode_symbol_table, name_end, checked_entry, extract_entry,
  extract_loop, extract_symbols,
}
use why.Object.Symbols.Names.{NoNul, Spells, read_name-At}

-- What the format can hold: a label of ASCII characters that are not NUL, of at most 2 ^ 15 - 1 words,
-- and an id that is the label's hash.
pub record IsEntry (encode_symbol : List ℕ → ℕ) (entry : SymbolTableEntry) : Type 0 where
  pub id_fits : entry.id < 2 ^ 32
  pub id_hash : encode_symbol entry.label ≡ entry.id
  pub type_fits : entry.type < 2 ^ 16
  pub some_char : 0 < length entry.label
  pub length_fits : length entry.label ≤ 262136
  pub no_nul : NoNul entry.label
  pub ascii : All (λ c. c < 2 ^ 7) entry.label

ascii-AreBytes : (cs : List ℕ) → All (λ c. c < 2 ^ 7) cs → All (λ c. c < 2 ^ 8) cs
ascii-AreBytes [] h = tt
ascii-AreBytes (c ∷ cs) h = (omega (arith, h.0), ascii-AreBytes cs h.1)

-- The words of a label.
module _ (label : List ℕ) (ascii : All (λ c. c < 2 ^ 7) label) (some_char : 0 < length label) where
  get_longs_str-Spells : Spells (get_longs_str label) label
  get_longs_str-Spells =
      let nonempty : (length label == 0) ≡ false = ground arith in
      let bytes = rw nonempty at (bytes_of-get_longs label (ascii-AreBytes label ascii)) in
      (
        (8 - length label % 8) % 8,
        omega arith,
        ap bytes_of (get_longs_str-get_longs label ascii) ∙ bytes,
      )

  length-get_longs_str : length (get_longs_str label) ≡ updiv (length label) 8
  unfolding updiv
  length-get_longs_str =
      let (p, less, e) = get_longs_str-Spells in
      ground (
        arith,
        ap length e,
        length-bytes_of (get_longs_str label),
        length-append label (zeros p),
        length-zeros p,
      )

-- The three fields of the first word.
module _ (id type n : ℕ) (hi : id < 2 ^ 32) (ht : type < 2 ^ 16) (hn : n < 2 ^ 16) where
  header :
      bit_or (bit_or (id * 2 ^ 32 % 2 ^ 64) (n % 2 ^ 16)) (type * 2 ^ 16 % 2 ^ 64)
      ≡ id * 2 ^ 32 + type * 2 ^ 16 + n
  header =
      let high : id * 2 ^ 32 % 2 ^ 64 ≡ id * 2 ^ 32 = omega arith in
      let low : n % 2 ^ 16 ≡ n = omega arith in
      let middle : type * 2 ^ 16 % 2 ^ 64 ≡ type * 2 ^ 16 = omega arith in
      let moved : id * 2 ^ 32 + n ≡ id * 2 ^ 16 * 2 ^ 16 + n = omega arith in
      rw (high, low, middle)
        (ap (λ (t : ℕ). bit_or t (type * 2 ^ 16)) (bit_or_fields 32 id n (omega arith) ∙ moved)
          ∙ bit_or_low 16 (id * 2 ^ 16) n type hn
          ∙ omega (arith, bit_or_fields 16 id type ht))

  header_id : (id * 2 ^ 32 + type * 2 ^ 16 + n) / 2 ^ 32 ≡ id
  header_id = omega arith

  header_type : (id * 2 ^ 32 + type * 2 ^ 16 + n) / 2 ^ 16 % 2 ^ 16 ≡ type
  header_type = omega arith

  name_end-header :
      (i : ℕ) → n < 2 ^ 15 → i < 2 ^ 62 → name_end i (id * 2 ^ 32 + type * 2 ^ 16 + n) ≡ i + 2 + n
  unfolding name_end
  name_end-header i short small =
      let low : (id * 2 ^ 32 + type * 2 ^ 16 + n) % 2 ^ 16 ≡ n = omega arith in
      let positive : extend16 n ≡ n = ground arith in rw (low, positive) (omega arith)

  header_not_negative :
      n < 2 ^ 15 → leb (2 ^ 15) ((id * 2 ^ 32 + type * 2 ^ 16 + n) % 2 ^ 16) ≡ false
  header_not_negative short =
      let low : (id * 2 ^ 32 + type * 2 ^ 16 + n) % 2 ^ 16 ≡ n = omega arith in ground arith

updiv-le : (n : ℕ) → n ≤ 262136 → updiv n 8 < 2 ^ 15
unfolding updiv
updiv-le n h = ground arith

length-encode_entry : (entry : SymbolTableEntry) → 2 ≤ length (encode_entry entry)
unfolding encode_entry
length-encode_entry entry = omega arith

abbrev table_words : List SymbolTableEntry → List ℕ
table_words [] = []
table_words (entry ∷ table) = encode_entry entry ++ table_words table

module _ (encode_symbol : List ℕ → ℕ) (raw : List ℕ) where
  -- One entry is read where its words stand.
  extract_entry-At :
      (entry : SymbolTableEntry) (i : ℕ)
      → IsEntry encode_symbol entry
      → i < 2 ^ 62
      → At raw i (encode_entry entry)
      → extract_entry encode_symbol raw i ≡ done (entry, i + length (encode_entry entry))
  unfolding extract_entry checked_entry fail_if encode_entry ◌>>=◌
  extract_entry-At entry i valid small at =
      let n = updiv (length entry.label) 8 in
      let short : n < 2 ^ 15 = updiv-le (length entry.label) valid.length_fits in
      let count = length-get_longs_str entry.label valid.ascii valid.some_char in
      let spelt = get_longs_str-Spells entry.label valid.ascii valid.some_char in
      let first = header entry.id entry.type n valid.id_fits valid.type_fits (omega arith) in
      let stop =
        name_end-header entry.id entry.type n valid.id_fits valid.type_fits (omega arith) i short
          small in
      let words : i + 2 + n - (i + 2) ≡ length (get_longs_str entry.label) = omega (arith, count) in
      let place : i + 1 + 1 ≡ i + 2 = omega arith in
      let name =
        read_name-At raw (get_longs_str entry.label) entry.label (i + 2) valid.no_nul
          (rw place at at.1.1) spelt in
      let same_hash : (encode_symbol entry.label == entry.id) ≡ true =
        ground (arith, valid.id_hash) in
      let next : i + 2 + n ≡ i + suc (suc (length (get_longs_str entry.label))) =
        omega (arith, count) in
      rw
        (
          at.0,
          at.1.0,
          first,
          header_not_negative entry.id entry.type n valid.id_fits valid.type_fits (omega arith)
              short,
          stop,
          words,
          name,
          header_id entry.id entry.type n valid.id_fits valid.type_fits (omega arith),
          header_type entry.id entry.type n valid.id_fits valid.type_fits (omega arith),
          same_hash,
        )
        (ap (λ (t : ℕ). let pair : SymbolTableEntry × ℕ = (entry, t) in done pair) next)

  extract_loop_step :
      (stop j i : ℕ)
      → ltb i stop ≡ true
      → extract_loop encode_symbol raw stop (suc j) i ≡ (
          extract_entry encode_symbol raw i >>= λ found.
          extract_loop encode_symbol raw stop j found.1 >>= λ rest. done (found.0 ∷ rest))
  unfolding extract_loop
  extract_loop_step stop j i more = rw (more, extract_loop) refl

  extract_loop-At :
      (table : List SymbolTableEntry) (stop j i : ℕ)
      → All (IsEntry encode_symbol) table
      → length table ≤ j
      → stop ≡ i + length (table_words table)
      → stop < 2 ^ 62
      → At raw i (table_words table)
      → extract_loop encode_symbol raw stop j i ≡ done table
  unfolding extract_loop ◌>>=◌
  extract_loop-At [] stop zero i valid fuel ends small at = refl
  extract_loop-At [] stop (suc j) i valid fuel ends small at =
      rw (le→ltb i stop (omega arith), extract_loop) refl
  extract_loop-At (entry ∷ table) stop zero i valid fuel ends small at = absurd (omega arith)
  extract_loop-At (entry ∷ table) stop (suc j) i valid fuel ends small at =
      let words = encode_entry entry in
      let some_word = length-encode_entry entry in
      let total = length-append words (table_words table) in
      let here = At-left raw i words (table_words table) at in
      let there = At-right raw i words (table_words table) at in
      let later =
        extract_loop-At table stop j (i + length words) valid.1 (omega arith) (omega arith) small
          there in
      extract_loop_step stop j i (lt→ltb i stop (omega arith))
      ∙ rw (extract_entry-At entry i valid.0 (omega arith) here, later) refl

-- The words of a table whose labels are not empty.
encode_symbol_table_lem :
    (encode_symbol : List ℕ → ℕ) (table : List SymbolTableEntry)
    → All (IsEntry encode_symbol) table
    → encode_symbol_table table ≡ done (table_words table)
unfolding encode_symbol_table fail_if ◌>>=◌
encode_symbol_table_lem encode_symbol [] valid = refl
encode_symbol_table_lem encode_symbol (entry ∷ table) valid =
    let nonempty : (length entry.label == 0) ≡ false = ground (arith, valid.0.some_char) in
    rw (nonempty, encode_symbol_table_lem encode_symbol table valid.1) refl

-- A table that encodeSymbolTable wrote is read back as it was by extractSymbols, wherever it stands in
-- the object between the two offsets, if its entries fit the format and are at most MAX_SYMBOLS.
pub extract_symbols-encode_symbol_table :
    (encode_symbol : List ℕ → ℕ) (table : List SymbolTableEntry) (out before after : List ℕ)
    → All (IsEntry encode_symbol) table
    → length table ≤ 1000000
    → encode_symbol_table table ≡ done out
    → length before + length out < 2 ^ 61
    → index (before ++ (out ++ after)) 2 ≡ done (8 * length before)
    → index (before ++ (out ++ after)) 3 ≡ done (8 * (length before + length out))
    → extract_symbols encode_symbol (before ++ (out ++ after)) ≡ done table
unfolding extract_symbols ◌>>=◌
extract_symbols-encode_symbol_table encode_symbol table out before after valid few e size start
      stop =
    let words : table_words table ≡ out =
      cc (e, encode_symbol_table_lem encode_symbol table valid) in
    let raw = before ++ (out ++ after) in
    let at : At raw (length before) (table_words table) = rw words (At-append before out after) in
    let from_word : 8 * length before / 8 ≡ length before = omega arith in
    let to_word : 8 * (length before + length out) / 8 ≡ length before + length out = omega arith in
    rw (start, stop, from_word, to_word)
      (extract_loop-At encode_symbol raw table (length before + length out) 1000000 (length before)
        valid few (rw words refl) (omega arith) at)
