-- ===== src/Object/Text/Digits.antt =====
-- The line of a word: sixteen digits, which strtoul reads in full.
use why.Base.{
  ℕ, suc, ◌+◌, ◌*◌, ◌/◌, ◌%◌, ◌^◌, ◌<◌, ◌≡◌, refl, ap, ◌∙◌, inl, inr, false, ◌&&◌, ◌||◌, some, List,
  [], ◌∷◌, reverse, length, leb, ◌==◌, if◌then◌else◌, arith, Bool-cases, IsWord,
}
use mathlib.Core.List.{reverse-cons}
use why.Machine.Memory.{split_bytes, join_bytes}
use why.Machine.Memory.Bytes.{
  AreBytes, span_mod, length-split_bytes, AreBytes-split_bytes, length-reverse, AreBytes-reverse,
  join_bytes-lt,
}
use why.Ops.Decode.{swap_endian}
use why.Object.Words.Packing.{join_bytes-snoc}
use why.Object.Text.{
  hex_char, hex_bytes, stringify_long, hex_digit, Scanned, scan_digits, has_prefix, skip,
  scan_unsigned, scan_signed, scan_ulong,
}

hex_digit-hex_char : (d : ℕ) → d < 16 → hex_digit (hex_char d) ≡ some d
unfolding hex_digit hex_char
hex_digit-hex_char d h = ground arith

-- The value of some bytes, the first one highest, below a value.
abbrev big_endian : List ℕ → ℕ → ℕ
big_endian [] acc = acc
big_endian (b ∷ bs) acc = big_endian bs (acc * 2 ^ 8 + b)

scan_digits-step :
    (c d acc : ℕ) (cs : List ℕ)
    → hex_digit c ≡ some d
    → scan_digits (c ∷ cs) acc
      ≡ ((scan_digits cs (acc * 16 + d)).0, suc (scan_digits cs (acc * 16 + d)).1)
unfolding scan_digits
scan_digits-step c d acc cs e = rw (e, scan_digits) refl

scan_digits-hex_bytes :
    (bs : List ℕ) (acc : ℕ)
    → AreBytes bs
    → scan_digits (hex_bytes bs) acc ≡ (big_endian bs acc, 2 * length bs)
unfolding hex_bytes scan_digits
scan_digits-hex_bytes [] acc h = refl
scan_digits-hex_bytes (b ∷ bs) acc h =
    let high = hex_digit-hex_char (b / 16) (omega (arith, h.0)) in
    let low = hex_digit-hex_char (b % 16) (omega arith) in
    let value : (acc * 16 + b / 16) * 16 + b % 16 ≡ acc * 256 + b = omega arith in
    let count : suc (suc (2 * length bs)) ≡ 2 * suc (length bs) = omega arith in
    scan_digits-step (hex_char (b / 16)) (b / 16) acc (hex_char (b % 16) ∷ hex_bytes bs) high
    ∙ rw
        (
          scan_digits-step (hex_char (b % 16)) (b % 16) (acc * 16 + b / 16) (hex_bytes bs) low,
          value,
          scan_digits-hex_bytes bs (acc * 256 + b) h.1,
          count,
        )
        refl

big_endian-reverse :
    (bs : List ℕ) (acc : ℕ)
    → AreBytes bs
    → big_endian bs acc ≡ acc * span_mod (length bs) + join_bytes (reverse bs)
unfolding join_bytes
big_endian-reverse [] acc h = omega arith
big_endian-reverse (b ∷ bs) acc h =
    let last = join_bytes-snoc (reverse bs) b (AreBytes-reverse bs h.1) h.0 in
    let s = span_mod (length bs) in
    let size : b * span_mod (length (reverse bs)) ≡ b * s =
      ap (λ (t : ℕ). b * span_mod t) (length-reverse bs) in
    let product : (acc * 256 + b) * s ≡ acc * (s * 256) + b * s = omega arith in
    big_endian-reverse bs (acc * 256 + b) h.1 ∙ rw (reverse-cons, last) (omega arith)

-- Neither a space nor a sign nor the second character of a prefix.
not_special :
    (d : ℕ)
    → d < 16
    → (((hex_char d == 32) || (leb 9 (hex_char d) && leb (hex_char d) 13)) ≡ false)
      × ((hex_char d == 45) ≡ false)
      × ((hex_char d == 43) ≡ false)
      × (((hex_char d == 120) || (hex_char d == 88)) ≡ false)
unfolding hex_char
not_special d h = (ground arith, ground arith, ground arith, ground arith)

has_prefix-hex : (c d : ℕ) (cs : List ℕ) → d < 16 → has_prefix (c ∷ (hex_char d ∷ cs)) ≡ false
unfolding has_prefix
has_prefix-hex c d [] h = refl
has_prefix-hex c d (e ∷ cs) h =
    let (_, _, _, no_x) = not_special d h in
    elim (Bool-cases (c == 48)) [
      | inl zero_first ↦ rw (zero_first, no_x) refl
      | inr other ↦ rw other refl
    ]

-- A line that starts with two digits is scanned from its first character on.
scan_ulong-hex :
    (d e : ℕ) (cs : List ℕ)
    → d < 16
    → e < 16
    → scan_ulong (hex_char d ∷ (hex_char e ∷ cs)) 0 ≡ (
        let line = hex_char d ∷ (hex_char e ∷ cs) in
        let n = (scan_digits line 0).1 in
        record {
          value = (scan_digits line 0).0;
          negative = false;
          consumed = if n == 0 then 0 else 0 + 0 + n;
          digits = n;
        })
unfolding scan_ulong scan_signed scan_unsigned skip
scan_ulong-hex d e cs hd he =
    let (no_space, no_minus, no_plus, _) = not_special d hd in
    rw (no_space, no_minus, no_plus, has_prefix-hex (hex_char d) e cs he) refl

pub swap_endian_lem : (w : ℕ) → swap_endian w ≡ join_bytes (reverse (split_bytes 8 w))
unfolding swap_endian
swap_endian_lem w = refl

pub length-hex_bytes : (bs : List ℕ) → length (hex_bytes bs) ≡ 2 * length bs
unfolding hex_bytes
length-hex_bytes [] = refl
length-hex_bytes (b ∷ bs) = omega (arith, length-hex_bytes bs)

pub length-stringify_long : (w : ℕ) → length (stringify_long w) ≡ 16
unfolding stringify_long
length-stringify_long w = omega (arith, length-hex_bytes (split_bytes 8 w), length-split_bytes 8 w)

abbrev scanned : ℕ → ℕ → Scanned
scanned value n = record {
  value = value;
  negative = false;
  consumed = if n == 0 then 0 else 0 + 0 + n;
  digits = n;
}

scan_ulong-hex_bytes :
    (b : ℕ) (bs : List ℕ)
    → AreBytes (b ∷ bs)
    → scan_ulong (hex_bytes (b ∷ bs)) 0 ≡ scanned (big_endian (b ∷ bs) 0) (2 * suc (length bs))
unfolding hex_bytes
scan_ulong-hex_bytes b bs h =
    let value = scan_digits-hex_bytes (b ∷ bs) 0 h in
    scan_ulong-hex (b / 16) (b % 16) (hex_bytes bs) (omega (arith, h.0)) (omega arith)
    ∙ ap (λ (found : ℕ × ℕ). scanned found.0 found.1) value

pub scan_ulong-stringify_long :
    (w : ℕ)
    → scan_ulong (stringify_long w) 0
      ≡ record { value = swap_endian w; negative = false; consumed = 16; digits = 16 }
unfolding stringify_long split_bytes
scan_ulong-stringify_long w =
    let bytes = AreBytes-split_bytes 8 w in
    let value : big_endian (split_bytes 8 w) 0 ≡ swap_endian w =
      omega (arith, big_endian-reverse (split_bytes 8 w) 0 bytes, swap_endian_lem w) in
    scan_ulong-hex_bytes (w % 2 ^ 8) (split_bytes 7 (w / 2 ^ 8)) bytes
    ∙ ap (λ (v : ℕ). scanned v 16) value

pub swap_endian-IsWord : (w : ℕ) → IsWord (swap_endian w)
swap_endian-IsWord w =
    let bytes = AreBytes-reverse (split_bytes 8 w) (AreBytes-split_bytes 8 w) in
    let size : length (reverse (split_bytes 8 w)) ≡ 8 =
      length-reverse (split_bytes 8 w) ∙ length-split_bytes 8 w in
    rw (swap_endian_lem w) (rw size at (join_bytes-lt (reverse (split_bytes 8 w)) bytes))
