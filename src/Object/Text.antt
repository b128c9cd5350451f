-- ===== src/Object/Text.antt =====
-- The text of an object file: Assembler::stringify of wasmc/src/wasm/Assembler.cpp, what reads it back
-- in wasmc/src/wasm/BinaryParser.cpp (the constructor from a path) and Util::parseUlong, and the
-- functions of the standard library that the readers use. A text is the list of its characters.
pub mod Digits
pub mod RoundTrip
use why.Base.{
  ℕ, zero, suc, ◌+◌, ◌-◌, ◌*◌, ◌/◌, ◌%◌, ◌^◌, Bool, true, false, not, ◌&&◌, ◌||◌, Option, none,
  some, List, [], ◌∷◌, ◌++◌, length, ltb, leb, ◌==◌, if◌then◌else◌, IsWord, word_mod,
}
use why.Machine.Memory.{split_bytes}
use why.Ops.Decode.{swap_endian}
use why.Object.Result.{Error, Result, done, fail_if, ◌>>=◌, ◌>>◌}

-- `std::hex` of a digit, and of a byte with a width of two, filled up with '0'.
unfoldable pub hex_char : ℕ → ℕ
hex_char d = if ltb d 10 then 48 + d else 87 + d

unfoldable pub hex_bytes : List ℕ → List ℕ
unfolding hex_char
hex_bytes [] = []
hex_bytes (b ∷ bs) = hex_char (b / 16) ∷ (hex_char (b % 16) ∷ hex_bytes bs)

-- One piece of stringify, and the pieces with a newline before each but the first.
unfoldable pub stringify_long : ℕ → List ℕ
unfolding hex_bytes split_bytes
stringify_long piece = hex_bytes (split_bytes 8 piece)

unfoldable pub stringify : List ℕ → List ℕ
unfolding stringify_long
stringify [] = []
stringify (piece ∷ []) = stringify_long piece
stringify (piece ∷ (next ∷ longs)) = stringify_long piece ++ (10 ∷ stringify (next ∷ longs))

-- The lines that `std::getline` gives one after the other.
unfoldable pub prepend : ℕ → List (List ℕ) → List (List ℕ)
prepend c [] = (c ∷ []) ∷ []
prepend c (line ∷ lines) = (c ∷ line) ∷ lines

unfoldable pub get_lines : List ℕ → List (List ℕ)
unfolding prepend
get_lines [] = []
get_lines (c ∷ text) = let lines = get_lines text in if c == 10 then [] ∷ lines else prepend c lines

-- The value of a hexadecimal digit.
unfoldable pub hex_digit : ℕ → Option ℕ
hex_digit c =
    if leb 48 c && leb c 57
    then some (c - 48)
    else if leb 97 c && leb c 102
    then some (c - 87)
    else if leb 65 c && leb c 70
    then some (c - 55)
    else none

-- What strtoul and std::stoul have found at base 16: the digits' value, whether there is a minus, how
-- many characters were taken with the last digit, and how many digits.
pub record Scanned : Type 0 where
  pub value : ℕ
  pub negative : Bool
  pub consumed : ℕ
  pub digits : ℕ

-- The digits from a character on: their value after `acc`, and how many there are.
unfoldable pub scan_digits : List ℕ → ℕ → ℕ × ℕ
unfolding hex_digit
scan_digits [] acc = (acc, 0)
scan_digits (c ∷ cs) acc = elim (hex_digit c) [
  | some d ↦ let (value, n) = scan_digits cs (acc * 16 + d) in (value, suc n)
  | none ↦ (acc, 0)
]

unfoldable pub is_hex : ℕ → Bool
unfolding hex_digit
is_hex c = elim (hex_digit c) [ some d ↦ true | none ↦ false ]

-- `0x` or `0X`, if a digit follows.
unfoldable pub has_prefix : List ℕ → Bool
unfolding is_hex
has_prefix (a ∷ (b ∷ (c ∷ cs))) = (a == 48) && (((b == 120) || (b == 88)) && is_hex c)
has_prefix _ = false

unfoldable pub skip : ℕ → List ℕ → List ℕ
skip zero cs = cs
skip (suc n) [] = []
skip (suc n) (c ∷ cs) = skip n cs

unfoldable pub scan_unsigned : List ℕ → ℕ → Bool → Scanned
unfolding scan_digits has_prefix skip
scan_unsigned cs before negative =
    let start = if has_prefix cs then 2 else 0 in
    let (value, n) = scan_digits (skip start cs) 0 in
    record {
      value = value;
      negative = negative;
      consumed = if n == 0 then 0 else before + start + n;
      digits = n;
    }

unfoldable pub scan_signed : List ℕ → ℕ → Scanned
unfolding scan_unsigned
scan_signed (c ∷ cs) before =
    if c == 45
    then scan_unsigned cs (before + 1) true
    else if c == 43
    then scan_unsigned cs (before + 1) false
    else scan_unsigned (c ∷ cs) before false
scan_signed [] before = scan_unsigned [] before false

-- White space is skipped first.
unfoldable pub scan_ulong : List ℕ → ℕ → Scanned
unfolding scan_signed
scan_ulong (c ∷ cs) before =
    let after = scan_ulong cs (before + 1) in
    if (c == 32) || (leb 9 c && leb c 13) then after else scan_signed (c ∷ cs) before
scan_ulong [] before = scan_signed [] before

-- The value that they return; a value that does not fit is ULONG_MAX.
unfoldable pub scanned_value : Scanned → ℕ
scanned_value s =
    if leb (2 ^ 64) s.value
    then 2 ^ 64 - 1
    else if s.negative
    then (2 ^ 64 - s.value) % 2 ^ 64
    else s.value

-- Util::parseUlong at base 16.
unfoldable pub parse_ulong : List ℕ → Result ℕ
unfolding scan_ulong scanned_value fail_if ◌>>=◌
parse_ulong str = do
  fail_if ((scan_ulong str 0).digits == 0) Error.not_an_integer
  fail_if (leb (2 ^ 64) (scan_ulong str 0).value) Error.too_large
  fail_if (not ((scan_ulong str 0).consumed == length str)) Error.not_an_integer
  done (scanned_value (scan_ulong str 0))

-- The loop over the lines of a file.
unfoldable pub read_longs : List (List ℕ) → Result (List ℕ)
unfolding parse_ulong swap_endian ◌>>=◌
read_longs [] = done []
read_longs (line ∷ lines) = do
  value ← parse_ulong line
  raw ← read_longs lines
  done (swap_endian value ∷ raw)
