-- ===== src/Object/Text/RoundTrip.antt =====
-- The text of an object is read back line by line.
use why.Base.{
  ℕ, ◌/◌, ◌%◌, ◌^◌, ◌<◌, ◌≡◌, refl, ap, ◌∙◌, false, List, [], ◌∷◌, ◌++◌, map, length, leb, ◌==◌,
  arith, IsWord, All,
}
use why.Machine.Memory.{split_bytes}
use why.Machine.Memory.Bytes.{AreBytes, AreBytes-split_bytes}
use why.Ops.Decode.{swap_endian}
use why.Ops.Decode.Swap.{swap_endian-swap_endian}
use why.Object.Result.{done, fail_if, ◌>>=◌}
use why.Object.Text.{
  hex_char, hex_bytes, stringify_long, stringify, prepend, get_lines, scanned_value, parse_ulong,
  read_longs,
}
use why.Object.Text.Digits.{length-stringify_long, scan_ulong-stringify_long, swap_endian-IsWord}

abbrev NoNewline : List ℕ → Type 0
NoNewline cs = All (λ c. (c == 10) ≡ false) cs

hex_char_lem : (d : ℕ) → d < 16 → (hex_char d == 10) ≡ false
unfolding hex_char
hex_char_lem d h = ground arith

NoNewline-hex_bytes : (bs : List ℕ) → AreBytes bs → NoNewline (hex_bytes bs)
unfolding hex_bytes
NoNewline-hex_bytes [] h = tt
NoNewline-hex_bytes (b ∷ bs) h = (
  hex_char_lem (b / 16) (omega (arith, h.0)),
  (hex_char_lem (b % 16) (omega arith), NoNewline-hex_bytes bs h.1),
)

NoNewline-stringify_long : (w : ℕ) → NoNewline (stringify_long w)
unfolding stringify_long
NoNewline-stringify_long w = NoNewline-hex_bytes (split_bytes 8 w) (AreBytes-split_bytes 8 w)

-- A line that another one follows, and the last line, if there is a character in it.
get_lines-newline :
    (line rest : List ℕ) → NoNewline line → get_lines (line ++ (10 ∷ rest)) ≡ line ∷ get_lines rest
unfolding get_lines prepend
get_lines-newline [] rest h = refl
get_lines-newline (c ∷ line) rest h = rw (h.0, get_lines-newline line rest h.1) refl

get_lines-last :
    (c : ℕ) (line : List ℕ) → NoNewline (c ∷ line) → get_lines (c ∷ line) ≡ (c ∷ line) ∷ []
unfolding get_lines prepend
get_lines-last c [] h = rw h.0 refl
get_lines-last c (d ∷ line) h = rw (h.0, get_lines-last d line h.1) refl

get_lines-full : (line : List ℕ) → length line ≡ 16 → NoNewline line → get_lines line ≡ line ∷ []
get_lines-full [] size h = absurd (omega arith)
get_lines-full (c ∷ line) size h = get_lines-last c line h

pub get_lines-stringify : (longs : List ℕ) → get_lines (stringify longs) ≡ map stringify_long longs
unfolding stringify
get_lines-stringify [] = unfold get_lines in refl
get_lines-stringify (w ∷ []) =
    get_lines-full (stringify_long w) (length-stringify_long w) (NoNewline-stringify_long w)
get_lines-stringify (w ∷ (next ∷ longs)) =
    get_lines-newline (stringify_long w) (stringify (next ∷ longs)) (NoNewline-stringify_long w)
    ∙ ap (λ (t : List (List ℕ)). stringify_long w ∷ t) (get_lines-stringify (next ∷ longs))

pub parse_ulong-stringify_long :
    (w : ℕ) → IsWord w → parse_ulong (stringify_long w) ≡ done (swap_endian w)
unfolding parse_ulong scanned_value fail_if ◌>>=◌
parse_ulong-stringify_long w h =
    let small : leb (2 ^ 64) (swap_endian w) ≡ false = ground (arith, swap_endian-IsWord w) in
    rw (scan_ulong-stringify_long w, small, length-stringify_long w) refl

read_longs_lem :
    (longs : List ℕ) → All IsWord longs → read_longs (map stringify_long longs) ≡ done longs
unfolding read_longs ◌>>=◌
read_longs_lem [] h = refl
read_longs_lem (w ∷ longs) h =
    rw (parse_ulong-stringify_long w h.0, read_longs_lem longs h.1, swap_endian-swap_endian w h.0)
      refl

-- The text that the assembler and the linker print of some words is read back to those words.
pub read_longs-stringify :
    (longs : List ℕ) → All IsWord longs → read_longs (get_lines (stringify longs)) ≡ done longs
read_longs-stringify longs h = rw (get_lines-stringify longs) (read_longs_lem longs h)
