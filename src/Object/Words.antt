-- ===== src/Object/Words.antt =====
-- Bytes and 64-bit words, wasmc/src/util/Util.cpp and wasmc/include/util/Util.h, and
-- BinaryParser::toString of wasmc/src/wasm/BinaryParser.cpp.
pub mod Packing
use why.Base.{
  ℕ, zero, suc, ◌+◌, ◌-◌, ◌*◌, ◌/◌, ◌%◌, ◌^◌, Bool, true, false, List, [], ◌∷◌, ◌++◌, ◌==◌,
  if◌then◌else◌, bit_or, extend8,
}
use why.Machine.Memory.{split_bytes}

-- Util::updiv and Util::upalign.
unfoldable pub updiv : ℕ → ℕ → ℕ
updiv n d = n / d + (if n % d == 0 then 0 else 1)

unfoldable pub upalign : ℕ → ℕ → ℕ
upalign num alignment = num + (alignment - num % alignment) % alignment

-- Util::getBytes.
unfoldable pub get_bytes : ℕ → List ℕ
unfolding split_bytes
get_bytes n = split_bytes 8 n

-- BinaryParser::toString: a string is the list of its bytes.
unfoldable pub to_string : ℕ → List ℕ
unfolding split_bytes
to_string number = split_bytes 8 number

-- `out.push_back(next)` under a test.
unfoldable pub push_if : Bool → ℕ → List ℕ → List ℕ
push_if test next out = if test then next ∷ out else out

-- The loop of Util::getLongs, and what follows it; `widen` is the conversion of an element to Long.
unfoldable pub pack : (ℕ → ℕ) → List ℕ → ℕ → ℕ → ℕ → List ℕ
unfolding push_if
pack widen [] next position count = push_if (if count == 0 then false else true) next []
pack widen (ch ∷ str) next position count =
    let joined = bit_or next (widen ch * 2 ^ (8 * position) % 2 ^ 64) in
    let moved = if position + 1 == 8 then 0 else position + 1 in
    let full = count + 1 == 8 in
    push_if full joined
      (pack widen str (if full then 0 else joined) moved (if full then 0 else count + 1))

unfoldable pub get_longs_of : (ℕ → ℕ) → List ℕ → List ℕ
unfolding pack
get_longs_of widen [] = 0 ∷ []
get_longs_of widen (ch ∷ str) = pack widen (ch ∷ str) 0 0 0

-- Util::getLongs of bytes, and of a string, whose characters are signed.
unfoldable pub get_longs : List ℕ → List ℕ
unfolding get_longs_of
get_longs = get_longs_of (λ b. b)

unfoldable pub get_longs_str : List ℕ → List ℕ
unfolding get_longs_of
get_longs_str = get_longs_of extend8
