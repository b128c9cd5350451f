-- ===== src/Object/Debug/Names.antt =====
-- What getDebugData reads of an entry with a string.
use why.Base.{
  ℕ, suc, ◌+◌, ◌-◌, ◌/◌, ◌%◌, ◌^◌, ◌≤◌, ◌<◌, ◌≡◌, refl, ap, ◌∙◌, false, List, [], ◌∷◌, ◌++◌, length,
  ◌==◌, IsWord, arith,
}
use why.Machine.Memory.Bytes.{AreBytes}
use why.Object.Result.{done, ◌>>=◌}
use why.Object.Words.{get_bytes, get_longs}
use why.Object.Words.Packing.{bytes_of, zeros, bytes_of-get_longs}
use why.Object.At.{At}
use why.Object.Debug.{
  DebugEntry, filename, function, location, string_bytes, byte_at, field_at, read_name_entry,
  read_typed, read_entry,
}
use why.Object.Debug.Strings.{pending, pending_some, fresh_word, field_at_lem, read_string-At}

-- What the format can hold: strings of fewer than 2 ^ 24 bytes, and the widths of a location's fields.
abbrev pub FitsDebug : DebugEntry → Type 0
FitsDebug (filename value) = AreBytes value × (length value < 2 ^ 24)
FitsDebug (function value) = AreBytes value × (length value < 2 ^ 24)
FitsDebug (location file_index line column function_index count address) =
    (file_index < 2 ^ 24)
    × (line < 2 ^ 32)
    × (column < 2 ^ 24)
    × (function_index < 2 ^ 32)
    × (count < 2 ^ 8)
    × IsWord address

byte_at_first : (w : ℕ) → byte_at w 0 ≡ w % 2 ^ 8
unfolding byte_at
byte_at_first w = omega arith

-- A word, by its first four bytes.
four_bytes :
    (w : ℕ)
    → get_bytes w ≡ byte_at w 0 ∷ (byte_at w 1 ∷ (byte_at w 2 ∷ (byte_at w 3 ∷ pending 4 w)))
four_bytes w =
    fresh_word 0 w refl
    ∙ ap (λ (t : List ℕ). byte_at w 0 ∷ t) (pending_some 1 w refl)
    ∙ ap (λ (t : List ℕ). byte_at w 0 ∷ (byte_at w 1 ∷ t)) (pending_some 2 w refl)
    ∙ ap (λ (t : List ℕ). byte_at w 0 ∷ (byte_at w 1 ∷ (byte_at w 2 ∷ t))) (pending_some 3 w refl)

length_field :
    (w n : ℕ)
    → n < 2 ^ 24
    → byte_at w 1 ≡ n % 2 ^ 8
    → byte_at w 2 ≡ n / 2 ^ 8 % 2 ^ 8
    → byte_at w 3 ≡ n / 2 ^ 16 % 2 ^ 8
    → field_at w 1 3 ≡ n
unfolding byte_at
length_field w n h e f g = omega (arith, field_at_lem w 1 3)

-- The words of some bytes, when there is one.
filled :
    (b : ℕ) (bs : List ℕ)
    → AreBytes (b ∷ bs)
    → (p : ℕ) × (p < 8) × (bytes_of (get_longs (b ∷ bs)) ≡ (b ∷ bs) ++ zeros p)
filled b bs h =
    let some_byte : (suc (length bs) == 0) ≡ false = ground arith in
    ((8 - suc (length bs) % 8) % 8, omega arith, rw some_byte at (bytes_of-get_longs (b ∷ bs) h))

module _ (raw : List ℕ) (i : ℕ) where
  read_name-words :
      (make : List ℕ → DebugEntry) (value ws : List ℕ) (type w p : ℕ)
      → length value < 2 ^ 24
      → p < 8
      → bytes_of (w ∷ ws) ≡ string_bytes type value ++ zeros p
      → At raw (i + 1) ws
      → (byte_at w 0 ≡ type) × (read_name_entry make raw i w ≡ done (make value, i + length ws))
  unfolding read_name_entry string_bytes ◌>>=◌
  read_name-words make value ws type w p short less e at =
      let bytes = rw (four_bytes w) at e in
      let count = length_field w (length value) short (cc) (cc) (cc) in
      let string = read_string-At raw value ws 4 i w p less (cc) at in (cc, rw (count, string) refl)

  -- An entry with a string, by the number of its type.
  pub read_string_entry :
      (make : List ℕ → DebugEntry) (value words : List ℕ) (type : ℕ)
      → ((w : ℕ) → byte_at w 0 ≡ type → read_typed raw i w ≡ read_name_entry make raw i w)
      → type < 2 ^ 8
      → AreBytes value
      → length value < 2 ^ 24
      → get_longs (string_bytes type value) ≡ words
      → At raw i words
      → (last : ℕ) × (read_entry raw i ≡ done (make value, last))
        × (i ≤ last)
        × (last + 1 ≡ i + length words)
  unfolding read_entry string_bytes ◌>>=◌
  read_string_entry make value words type typed small bytes short e at = by_words words e at
    where
      three : List ℕ
      three =
          (length value % 2 ^ 8)
          ∷ ((length value / 2 ^ 8 % 2 ^ 8) ∷ ((length value / 2 ^ 16 % 2 ^ 8) ∷ value))

      by_words :
          (ws : List ℕ)
          → get_longs (type ∷ three) ≡ ws
          → At raw i ws
          → (last : ℕ) × (read_entry raw i ≡ done (make value, last))
            × (i ≤ last)
            × (last + 1 ≡ i + length ws)
      by_words [] same here =
          let (p, less, full) =
            filled type three (small, (omega arith, (omega arith, (omega arith, bytes)))) in
          let nothing = rw same at full in cc
      by_words (w ∷ ws) same here =
          let (p, less, full) =
            filled type three (small, (omega arith, (omega arith, (omega arith, bytes)))) in
          let (first, name) =
            read_name-words make value ws type w p short less (rw same at full) here.1 in
          (i + length ws, rw (here.0, typed w first, name) refl, omega arith, omega arith)
