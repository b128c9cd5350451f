-- ===== src/Object/Debug/Location.antt =====
-- What getDebugData reads of a location.
use why.Base.{
  ℕ, ◌+◌, ◌*◌, ◌/◌, ◌%◌, ◌^◌, ◌≤◌, ◌≡◌, refl, sym, ap, ◌∙◌, List, [], ◌∷◌, ◌++◌, length, All,
  IsWord, arith,
}
use why.Machine.Memory.{split_bytes, join_bytes}
use why.Machine.Memory.Bytes.{
  AreBytes, AreBytes-append, AreBytes-split_bytes, span_mod, join-split_bytes,
}
use why.Object.Result.{done, index, ◌>>=◌}
use why.Object.Words.{get_bytes, get_longs}
use why.Object.Words.Packing.{bytes_of, length-bytes_of, bytes_of-get_longs, get_longs-IsWord}
use why.Object.At.{At}
use why.Object.Debug.{
  DebugEntry, location, location_bytes, byte_at, field_at, read_location, read_typed, read_entry,
}
use why.Object.Debug.Strings.{field_at_lem}
use why.Object.Debug.Names.{FitsDebug}

same_bytes : (n x v : ℕ) → split_bytes n x ≡ split_bytes n v → x % span_mod n ≡ v % span_mod n
same_bytes n x v e = sym (join-split_bytes n x) ∙ ap join_bytes e ∙ join-split_bytes n v

read_location_lem :
    (raw : List ℕ) (i a b c : ℕ) (entry : DebugEntry)
    → index raw i ≡ done a
    → index raw (i + 1) ≡ done b
    → index raw (i + 2) ≡ done c
    → byte_at a 0 ≡ 3
    → location (field_at a 1 3) (field_at a 4 4) (field_at b 0 3) (field_at b 4 4) (byte_at b 3) c
      ≡ entry
    → read_entry raw i ≡ done (entry, i + 2)
unfolding read_entry read_typed read_location ◌>>=◌
read_location_lem raw i a b c entry e f g type fields = rw (e, type, f, g, fields) refl

-- The words of a location.
module _ (file_index line column function_index count address : ℕ) where
  abbrev pub the_location : DebugEntry
  the_location = location file_index line column function_index count address

  location_words :
      (a b c : ℕ)
      → FitsDebug the_location
      → bytes_of (a ∷ (b ∷ (c ∷ [])))
        ≡ location_bytes file_index line column function_index count address
      → IsWord c
      → (byte_at a 0 ≡ 3)
        × (location
              (field_at a 1 3)
              (field_at a 4 4)
              (field_at b 0 3)
              (field_at b 4 4)
              (byte_at b 3)
              c
            ≡ the_location)
  unfolding get_bytes location_bytes split_bytes byte_at
  location_words a b c (hf, hl, hc, hu, hn, ha) e word =
      let type : a % 2 ^ 8 ≡ 3 = cc in
      let by3 : split_bytes 3 (a / 2 ^ 8) ≡ split_bytes 3 file_index = cc in
      let by4 : split_bytes 4 (a / 2 ^ 8 / 2 ^ 8 / 2 ^ 8 / 2 ^ 8) ≡ split_bytes 4 line = cc in
      let col3 : split_bytes 3 b ≡ split_bytes 3 column = cc in
      let num : b / 2 ^ 8 / 2 ^ 8 / 2 ^ 8 % 2 ^ 8 ≡ count % 2 ^ 8 = cc in
      let fun4 : split_bytes 4 (b / 2 ^ 8 / 2 ^ 8 / 2 ^ 8 / 2 ^ 8) ≡ split_bytes 4 function_index =
        cc in
      let all8 : split_bytes 8 c ≡ split_bytes 8 address = cc in
      let file_field : field_at a 1 3 ≡ file_index =
        omega (arith, field_at_lem a 1 3, same_bytes 3 (a / 2 ^ 8) file_index by3) in
      let line_field : field_at a 4 4 ≡ line =
        omega
          (arith, field_at_lem a 4 4, same_bytes 4 (a / 2 ^ 8 / 2 ^ 8 / 2 ^ 8 / 2 ^ 8) line by4) in
      let column_field : field_at b 0 3 ≡ column =
        omega (arith, field_at_lem b 0 3, same_bytes 3 b column col3) in
      let function_field : field_at b 4 4 ≡ function_index = omega (
        arith,
        field_at_lem b 4 4,
        same_bytes 4 (b / 2 ^ 8 / 2 ^ 8 / 2 ^ 8 / 2 ^ 8) function_index fun4,
      ) in
      let count_field : byte_at b 3 ≡ count = omega arith in
      let last_word : c ≡ address = omega (arith, same_bytes 8 c address all8) in
      (
        omega arith,
        rw (file_field, line_field, column_field, function_field, count_field, last_word) refl,
      )

  location_rest : List ℕ
  location_rest =
      split_bytes 3 file_index
      ++ (split_bytes 4 line
          ++ (split_bytes 3 column
              ++ ((count % 2 ^ 8) ∷ (split_bytes 4 function_index ++ split_bytes 8 address))))

  location_AreBytes : AreBytes (3 ∷ location_rest)
  unfolding location_rest
  location_AreBytes =
      let tail =
        AreBytes-append _ _ (AreBytes-split_bytes 4 function_index)
          (AreBytes-split_bytes 8 address) in
      (
        omega arith,
        AreBytes-append _ _ (AreBytes-split_bytes 3 file_index) (
            AreBytes-append _ _ (AreBytes-split_bytes 4 line)
              (AreBytes-append _ _ (AreBytes-split_bytes 3 column) (omega arith, tail))),
      )

  location_filled :
      (words : List ℕ)
      → get_longs (location_bytes file_index line column function_index count address) ≡ words
      → (length words ≡ 3)
        × (bytes_of words ≡ location_bytes file_index line column function_index count address)
        × All IsWord words
  unfolding location_bytes location_rest split_bytes
  location_filled words e =
      let full = bytes_of-get_longs (3 ∷ location_rest) location_AreBytes in
      let bytes = ap bytes_of (sym e) ∙ full in
      let size : 8 * length words ≡ 24 = sym (length-bytes_of words) ∙ ap length bytes in
      (omega arith, bytes, rw e at (get_longs-IsWord (3 ∷ location_rest)))

  pub read_location_entry :
      (raw words : List ℕ) (i : ℕ)
      → FitsDebug the_location
      → get_longs (location_bytes file_index line column function_index count address) ≡ words
      → At raw i words
      → (last : ℕ) × (read_entry raw i ≡ done (the_location, last))
        × (i ≤ last)
        × (last + 1 ≡ i + length words)
  read_location_entry raw words i fits e at =
      let (size, bytes, words64) = location_filled words e in by_words words size bytes words64 at
    where
      by_words :
          (ws : List ℕ)
          → length ws ≡ 3
          → bytes_of ws ≡ location_bytes file_index line column function_index count address
          → All IsWord ws
          → At raw i ws
          → (last : ℕ) × (read_entry raw i ≡ done (the_location, last))
            × (i ≤ last)
            × (last + 1 ≡ i + length ws)
      by_words [] size bytes w here = absurd (omega arith)
      by_words (a ∷ []) size bytes w here = absurd (omega arith)
      by_words (a ∷ (b ∷ [])) size bytes w here = absurd (omega arith)
      by_words (a ∷ (b ∷ (c ∷ (d ∷ ws)))) size bytes w here = absurd (omega arith)
      by_words (a ∷ (b ∷ (c ∷ []))) size bytes w here =
          let (type, fields) = location_words a b c fits bytes w.1.1.0 in
          let second : i + 1 + 1 ≡ i + 2 = omega arith in
          (
            i + 2,
            read_location_lem raw i a b c the_location here.0 here.1.0 (rw second at here.1.1.0)
                type fields,
            omega arith,
            omega arith,
          )
