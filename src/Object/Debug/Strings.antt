-- ===== src/Object/Debug/Strings.antt =====
-- The fields of debug data, and the loop of getDebugData over the characters of a string.
use why.Base.{
  ℕ, zero, suc, ◌+◌, ◌-◌, ◌*◌, ◌/◌, ◌%◌, ◌^◌, ◌<◌, ◌≡◌, refl, sym, ap, ◌∙◌, inl, inr, true, false,
  List, [], ◌∷◌, ◌++◌, length, length-append, ◌==◌, if◌then◌else◌, arith, Bool-cases,
}
use why.Machine.Memory.{split_bytes, join_bytes}
use why.Machine.Memory.Bytes.{span_mod, join-split_bytes}
use why.Object.Result.{done, index, ◌>>=◌}
use why.Object.Words.{get_bytes}
use why.Object.Words.Packing.{bytes_of, zeros, length-bytes_of, length-zeros, shift_bytes}
use why.Object.At.{At}
use why.Object.Debug.{byte_at, field_at, next_piece, read_string}

field_at-join_bytes :
    (n piece k : ℕ) → field_at piece k n ≡ join_bytes (split_bytes n (piece / 2 ^ (8 * k)))
unfolding field_at byte_at join_bytes split_bytes
field_at-join_bytes zero piece k = refl
field_at-join_bytes (suc n) piece k =
    rw (shift_bytes piece k, field_at-join_bytes n piece (k + 1)) refl

-- A field is some bytes of the word, as a number.
pub field_at_lem : (piece k n : ℕ) → field_at piece k n ≡ piece / 2 ^ (8 * k) % span_mod n
field_at_lem piece k n = field_at-join_bytes n piece k ∙ join-split_bytes n (piece / 2 ^ (8 * k))

-- The bytes of the current word that byte `j` of an entry starts, or none when the next word is due.
abbrev pub pending : ℕ → ℕ → List ℕ
pending j piece = if j % 8 == 0 then [] else split_bytes (8 - j % 8) (piece / 2 ^ (8 * (j % 8)))

-- After byte `k` of a word, in the word of byte `j`, come the pending ones.
split_pending :
    (j k piece : ℕ)
    → k < 8
    → (j % 8 ≡ k)
    → split_bytes (8 - k) (piece / 2 ^ (8 * k)) ≡ byte_at piece k ∷ pending (j + 1) piece
unfolding byte_at split_bytes
split_pending j k piece h e = elim (Bool-cases (k == 7)) [
  | inl last ↦
      let seven : k ≡ 7 = ground arith in
      let next : ((j + 1) % 8 == 0) ≡ true = ground arith in rw (seven, next) refl
  | inr more ↦
      let next : (j + 1) % 8 ≡ k + 1 = ground arith in
      let some_byte : (k + 1 == 0) ≡ false = ground arith in
      let count : 8 - k ≡ suc (8 - (k + 1)) = ground arith in
      rw (next, some_byte, count, shift_bytes piece k) refl
]

-- One round: the piece that the next character comes from, and the bytes left after it.
next_piece_same :
    (raw : List ℕ) (j i piece : ℕ)
    → (j % 8 == 0) ≡ false
    → next_piece raw j i piece ≡ done (i, piece)
unfolding next_piece
next_piece_same raw j i piece h = rw (h, next_piece) refl

next_piece_new :
    (raw : List ℕ) (j i piece w : ℕ)
    → (j % 8 == 0) ≡ true
    → index raw (i + 1) ≡ done w
    → next_piece raw j i piece ≡ done (i + 1, w)
unfolding next_piece ◌>>=◌
next_piece_new raw j i piece w h at = rw (h, next_piece, at) refl

read_string_step :
    (raw rest : List ℕ) (n j i piece here w c last : ℕ)
    → next_piece raw j i piece ≡ done (here, w)
    → byte_at w (j % 8) ≡ c
    → read_string raw n (j + 1) here w ≡ done (rest, last)
    → read_string raw (suc n) j i piece ≡ done (c ∷ rest, last)
unfolding read_string ◌>>=◌
read_string_step raw rest n j i piece here w c last e f g = rw (e, f, g) refl

read_string_end :
    (raw ws : List ℕ) (j i piece : ℕ)
    → length ws ≡ 0
    → read_string raw 0 j i piece ≡ done ([], i + length ws)
unfolding read_string
read_string_end raw ws j i piece h =
    let stays : i ≡ i + length ws = omega arith in
    ap (λ (t : ℕ). let pair : List ℕ × ℕ = ([], t) in done pair) stays

pending_none : (j piece : ℕ) → (j % 8 == 0) ≡ true → pending j piece ≡ []
pending_none j piece h = rw h refl

pub pending_some :
    (j piece : ℕ)
    → (j % 8 == 0) ≡ false
    → pending j piece ≡ byte_at piece (j % 8) ∷ pending (j + 1) piece
pending_some j piece h = rw h (split_pending j (j % 8) piece (omega arith) refl)

pub fresh_word : (j w : ℕ) → (j % 8 == 0) ≡ true → get_bytes w ≡ byte_at w 0 ∷ pending (j + 1) w
unfolding get_bytes
fresh_word j w h =
    let whole : w / 2 ^ (8 * 0) ≡ w = omega arith in
    let at_start : j % 8 ≡ 0 = ground arith in
    sym (ap (λ (t : ℕ). split_bytes 8 t) whole) ∙ split_pending j 0 w (omega arith) at_start

-- The characters are read, and the index moves to the last of the words that hold them and less than
-- a word of zeros.
pub read_string-At :
    (raw cs ws : List ℕ) (j i piece p : ℕ)
    → p < 8
    → pending j piece ++ bytes_of ws ≡ cs ++ zeros p
    → At raw (i + 1) ws
    → read_string raw (length cs) j i piece ≡ done (cs, i + length ws)
read_string-At raw [] ws j i piece p less e at = read_string_end raw ws j i piece none_left
  where
    none_left : length ws ≡ 0
    none_left = omega (
      arith,
      ap length e,
      length-append (pending j piece) (bytes_of ws),
      length-bytes_of ws,
      length-zeros p,
    )
read_string-At raw (c ∷ cs) [] j i piece p less e at = elim (Bool-cases (j % 8 == 0)) [
  | inl new ↦ let nothing = rw (pending_none j piece new) at e in cc
  | inr same ↦
      let bytes = rw (pending_some j piece same) at e in
      read_string_step raw cs (length cs) j i piece i piece c (i + 0)
        (next_piece_same raw j i piece same) (cc)
        (read_string-At raw cs [] (j + 1) i piece p less (cc) at)
]
read_string-At raw (c ∷ cs) (w ∷ ws) j i piece p less e at = elim (Bool-cases (j % 8 == 0)) [
  | inl new ↦
      let bytes = rw (pending_none j piece new, fresh_word j w new) at e in
      let at_start : j % 8 ≡ 0 = ground arith in
      let last : i + 1 + length ws ≡ i + suc (length ws) = omega arith in
      read_string_step raw cs (length cs) j i piece (i + 1) w c (i + suc (length ws))
        (next_piece_new raw j i piece w new at.0) (ap (byte_at w) at_start ∙ cc)
        (rw last at (read_string-At raw cs ws (j + 1) (i + 1) w p less (cc) at.1))
  | inr same ↦
      let bytes = rw (pending_some j piece same) at e in
      read_string_step raw cs (length cs) j i piece i piece c (i + suc (length ws))
        (next_piece_same raw j i piece same) (cc)
        (read_string-At raw cs (w ∷ ws) (j + 1) i piece p less (cc) at)
]
