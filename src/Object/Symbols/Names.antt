-- ===== src/Object/Symbols/Names.antt =====
-- The name of a symbol, which extractSymbols reads from whole words.
use why.Base.{
  ℕ, zero, suc, ◌+◌, ◌*◌, ◌/◌, ◌%◌, ◌^◌, ◌≤◌, ◌<◌, ◌≡◌, refl, ap, ◌∙◌, ◌⊎◌, inl, inr, false, List,
  [], ◌∷◌, ◌++◌, length, length-append, All, ◌==◌, if◌then◌else◌, arith,
}
use mathlib.Core.List.{append-nil}
use why.Machine.Memory.{split_bytes}
use why.Object.Result.{done, ◌>>=◌}
use why.Object.Words.{get_bytes}
use why.Object.Words.Packing.{bytes_of, zeros, shift_bytes, length-zeros, length-bytes_of}
use why.Object.At.{At}
use why.Object.Symbols.{strip, chars_from, piece_chars, read_name}

abbrev pub NoNul : List ℕ → Type 0
NoNul cs = All (λ c. 0 < c) cs

-- The bytes before the first zero.
abbrev take_chars : List ℕ → List ℕ
take_chars [] = []
take_chars (b ∷ bs) = if b == 0 then [] else b ∷ take_chars bs

chars_from-split_bytes :
    (n piece offset : ℕ)
    → chars_from n piece offset ≡ take_chars (split_bytes n (piece / 2 ^ (8 * offset)))
unfolding chars_from split_bytes
chars_from-split_bytes zero piece offset = refl
chars_from-split_bytes (suc n) piece offset =
    rw (shift_bytes piece offset, chars_from-split_bytes n piece (offset + 1)) refl

strip_none :
    (fuel piece removed : ℕ) → 0 < piece % 2 ^ 8 → strip fuel piece removed ≡ (piece, removed)
unfolding strip
strip_none zero piece removed h = refl
strip_none (suc fuel) piece removed h =
    let some_bit : (piece == 0) ≡ false = ground arith in
    let low : (piece % 2 ^ 8 == 0) ≡ false = ground arith in rw (some_bit, low) refl

-- A word that starts with a character loses nothing at its low end.
piece_chars-take_chars :
    (piece : ℕ) → 0 < piece % 2 ^ 8 → piece_chars piece ≡ take_chars (split_bytes 8 piece)
unfolding piece_chars
piece_chars-take_chars piece h =
    let whole : piece / 2 ^ (8 * 0) ≡ piece = omega arith in
    let chars : chars_from 8 piece 0 ≡ take_chars (split_bytes 8 piece) =
      chars_from-split_bytes 8 piece 0 ∙ ap (λ (t : ℕ). take_chars (split_bytes 8 t)) whole in
    rw (strip_none 8 piece 0 h) chars

-- Some bytes of a name that zeros follow: they are a part of the name, or they reach its end.
take_chars_part :
    (xs rest name : List ℕ) (p : ℕ)
    → NoNul name
    → xs ++ rest ≡ name ++ zeros p
    → ((later : List ℕ) × (take_chars xs ++ later ≡ name) × NoNul later × (rest ≡ later ++ zeros p))
      ⊎ ((take_chars xs ≡ name) × (length rest ≤ p))
take_chars_part [] rest name p h e = inl (name, refl, h, e)
take_chars_part (x ∷ xs) rest [] zero h e = cc
take_chars_part (x ∷ xs) rest [] (suc p) h e =
    let head : x ≡ 0 = cc in
    let left : xs ++ rest ≡ zeros p = cc in
    inr (ground arith, omega (arith, ap length left, length-append xs rest, length-zeros p))
take_chars_part (x ∷ xs) rest (c ∷ name) p h e =
    let head : x ≡ c = cc in
    let left : xs ++ rest ≡ name ++ zeros p = cc in
    let some_char : (x == 0) ≡ false = ground (arith, h.0) in
    elim (take_chars_part xs rest name p h.1 left) [
      | inl (later, whole, more, ends) ↦ rw some_char (
          inl (later, ap (λ (t : List ℕ). x ∷ t) whole ∙ ap (λ (t : ℕ). t ∷ name) head, more, ends))
      | inr (whole, short) ↦
          rw some_char
            (inr (ap (λ (t : List ℕ). x ∷ t) whole ∙ ap (λ (t : ℕ). t ∷ name) head, short))
    ]

-- The words that hold a name and less than a word of zeros.
abbrev pub Spells : List ℕ → List ℕ → Type 0
Spells ws name = (p : ℕ) × (p < 8) × (bytes_of ws ≡ name ++ zeros p)

get_bytes_lem : (w : ℕ) (ws : List ℕ) → split_bytes 8 w ++ bytes_of ws ≡ bytes_of (w ∷ ws)
unfolding get_bytes
get_bytes_lem w ws = refl

first_byte : (w c : ℕ) (ws bs : List ℕ) → bytes_of (w ∷ ws) ≡ c ∷ bs → w % 2 ^ 8 ≡ c
unfolding get_bytes split_bytes
first_byte w c ws bs e = cc

no_name : (w p : ℕ) (ws : List ℕ) → p < 8 → bytes_of (w ∷ ws) ≡ zeros p → ⊥
no_name w p ws less e = omega (arith, length-bytes_of (w ∷ ws), ap length e, length-zeros p)

pub read_name-At :
    (raw ws name : List ℕ) (i : ℕ)
    → NoNul name
    → At raw i ws
    → Spells ws name
    → read_name raw (length ws) i ≡ done name
unfolding read_name ◌>>=◌
read_name-At raw [] [] i h at e = refl
read_name-At raw [] (c ∷ name) i h at (p, less, e) = cc
read_name-At raw (w ∷ ws) [] i h at (p, less, e) = absurd (no_name w p ws less e)
read_name-At raw (w ∷ ws) (c ∷ name) i h at (p, less, e) =
    let some_char : 0 < w % 2 ^ 8 = omega (arith, h.0, first_byte w c ws (name ++ zeros p) e) in
    let chars = piece_chars-take_chars w some_char in
    elim (take_chars_part (split_bytes 8 w) (bytes_of ws) (c ∷ name) p h (get_bytes_lem w ws ∙ e)) [
      | inl (later, whole, more, ends) ↦
          rw (at.0, read_name-At raw ws later (i + 1) more at.1 (p, less, ends), chars)
            (ap done whole)
      | inr (whole, short) ↦
          let last : length ws ≡ 0 = omega (arith, length-bytes_of ws) in
          rw (at.0, last, chars) (ap done (append-nil _ ∙ whole))
    ]
