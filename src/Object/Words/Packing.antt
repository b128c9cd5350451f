-- ===== src/Object/Words/Packing.antt =====
-- The words that Util::getLongs makes of bytes, by the bytes of the words.
use why.Base.{
  ℕ, zero, suc, ◌+◌, ◌-◌, ◌*◌, ◌/◌, ◌%◌, ◌^◌, ◌≤◌, ◌<◌, ◌≡◌, refl, sym, ap, ◌∙◌, inl, inr, List, [],
  ◌∷◌, true, false, if◌then◌else◌, ◌++◌, length, length-append, All, ◌==◌, IsWord, bit_or, extend8,
  arith, Bool-cases,
}
use why.Base.Bits.{bit_or_fields, bit_or_above, bit_or-lt}
use mathlib.Core.List.{append_assoc, append-nil}
use native.Mathlib.Nat.{mod-eq_of_lt, pow-le-pow_right, div-div-eq-div-mul}
use native.Mathlib.Numerals.{towards_suc}
use why.Machine.Memory.{split_bytes, join_bytes}
use why.Machine.Memory.Bytes.{
  AreBytes, AreBytes-append, length-split_bytes, span_mod, split-join_bytes, join_bytes-lt,
}
use why.Object.Words.{get_bytes, get_longs_of, get_longs, get_longs_str, pack, push_if}

-- The bytes of some words, one word after the other, from the lowest byte.
abbrev pub bytes_of : List ℕ → List ℕ
bytes_of [] = []
bytes_of (w ∷ ws) = get_bytes w ++ bytes_of ws

abbrev pub zeros : ℕ → List ℕ
zeros zero = []
zeros (suc n) = 0 ∷ zeros n

-- What fills `n` bytes up to whole words.
abbrev pub padding : ℕ → List ℕ
padding n = zeros ((8 - n % 8) % 8)

pow_eight : (k : ℕ) → 2 ^ (k + 8) ≡ 2 ^ k * 256
pow_eight k = simp towards_suc (omega arith)

pub shift_bytes : (piece k : ℕ) → piece / 2 ^ (8 * k) / 2 ^ 8 ≡ piece / 2 ^ (8 * (k + 1))
shift_bytes piece k =
    let next : 8 * (k + 1) ≡ 8 * k + 8 = omega arith in
    div-div-eq-div-mul piece (2 ^ (8 * k)) 256
    ∙ ap (λ (t : ℕ). piece / t) (sym (ap (λ (t : ℕ). 2 ^ t) next ∙ pow_eight (8 * k)))

pow-span_mod : (n : ℕ) → 2 ^ (8 * n) ≡ span_mod n
pow-span_mod zero = refl
pow-span_mod (suc n) =
    let next : 8 * suc n ≡ 8 * n + 8 = omega arith in
    ap (λ (t : ℕ). 2 ^ t) next ∙ omega (arith, pow_eight (8 * n), pow-span_mod n)

pub join_bytes-snoc :
    (bs : List ℕ) (b : ℕ)
    → AreBytes bs
    → b < 2 ^ 8
    → join_bytes (bs ++ (b ∷ [])) ≡ join_bytes bs + b * span_mod (length bs)
unfolding join_bytes
join_bytes-snoc [] b h k = omega (arith, bit_or_fields 8 0 b k)
join_bytes-snoc (c ∷ bs) b h k = omega (
  arith,
  bit_or_fields 8 (join_bytes (bs ++ (b ∷ []))) c h.0,
  bit_or_fields 8 (join_bytes bs) c h.0,
  join_bytes-snoc bs b h.1 k,
)

split_zero : (n : ℕ) → split_bytes n 0 ≡ zeros n
unfolding split_bytes
split_zero zero = refl
split_zero (suc n) = ap (λ (t : List ℕ). 0 ∷ t) (split_zero n)

-- Fewer bytes than asked for are followed by zeros.
split-join_zeros :
    (bs : List ℕ) (k : ℕ)
    → AreBytes bs
    → split_bytes (length bs + k) (join_bytes bs) ≡ bs ++ zeros k
unfolding split_bytes join_bytes
split-join_zeros [] k h = let none_first : 0 + k ≡ k = omega arith in rw none_first (split_zero k)
split-join_zeros (b ∷ bs) k h =
    let one_first : suc (length bs) + k ≡ suc (length bs + k) = omega arith in
    let sum = bit_or_fields 8 (join_bytes bs) b h.0 in
    let low : (join_bytes bs * 2 ^ 8 + b) % 2 ^ 8 ≡ b = omega (arith, h.0) in
    let high : (join_bytes bs * 2 ^ 8 + b) / 2 ^ 8 ≡ join_bytes bs = omega (arith, h.0) in
    rw (one_first, sum, low, high) (ap (λ (t : List ℕ). b ∷ t) (split-join_zeros bs k h.1))

span_mod-le : (n : ℕ) → n < 8 → span_mod (suc n) ≤ 2 ^ 64
span_mod-le n h =
    let room : 8 * suc n ≤ 64 = omega arith in
    omega (arith, pow-span_mod (suc n), pow-le-pow_right {n = 2} (omega arith) room)

-- One more byte on top of fewer than eight.
joined_byte :
    (pre : List ℕ) (b : ℕ)
    → AreBytes pre
    → length pre < 8
    → b < 2 ^ 8
    → bit_or (join_bytes pre) (b * 2 ^ (8 * length pre) % 2 ^ 64) ≡ join_bytes (pre ++ (b ∷ []))
joined_byte pre b h short k =
    let snoc = join_bytes-snoc pre b h k in
    let power = pow-span_mod (length pre) in
    let shifted : b * 2 ^ (8 * length pre) ≡ b * span_mod (length pre) =
      ap (λ (t : ℕ). b * t) power in
    let below = join_bytes-lt pre h in
    let len : length (pre ++ (b ∷ [])) ≡ suc (length pre) =
      omega (arith, length-append pre (b ∷ [])) in
    let total = join_bytes-lt (pre ++ (b ∷ [])) (AreBytes-append pre (b ∷ []) h (k, tt)) in
    let fits : b * 2 ^ (8 * length pre) < 2 ^ 64 =
      omega (arith, snoc, shifted, span_mod-le (length pre) short, ap span_mod len, total) in
    rw (mod-eq_of_lt fits)
      (omega (arith, snoc, shifted, power, bit_or_above (8 * length pre) b (join_bytes pre)))

length-snoc : (pre : List ℕ) (b : ℕ) → length (pre ++ (b ∷ [])) ≡ length pre + 1
length-snoc pre b = length-append pre (b ∷ [])

-- One round of the loop, by whether the byte fills the word.
module _ (b : ℕ) (bs pre : List ℕ) (byte : b < 2 ^ 8) (k : AreBytes pre)
    (short : length pre < 8) where
  pack_full :
      (length pre + 1 == 8) ≡ true
      → pack (λ c. c) (b ∷ bs) (join_bytes pre) (length pre) (length pre)
        ≡ join_bytes (pre ++ (b ∷ [])) ∷ pack (λ c. c) bs 0 0 0
  unfolding pack push_if
  pack_full full = rw (full, joined_byte pre b k short byte) refl

  pack_more :
      (length pre + 1 == 8) ≡ false
      → let longer = pre ++ (b ∷ []) in
        pack (λ c. c) (b ∷ bs) (join_bytes pre) (length pre) (length pre)
        ≡ pack (λ c. c) bs (join_bytes longer) (length longer) (length longer)
  unfolding pack push_if
  pack_more more = rw (more, joined_byte pre b k short byte, length-snoc pre b) refl

shift_one : (m n : ℕ) → m + suc n ≡ suc m + n
shift_one m n = omega arith

padding_whole : (m n : ℕ) → m ≡ 8 → padding (m + n) ≡ padding n
padding_whole m n h = ap (λ (t : ℕ). zeros ((8 - t) % 8)) (omega arith)

split_full : (bs : List ℕ) → AreBytes bs → length bs ≡ 8 → get_bytes (join_bytes bs) ≡ bs
unfolding get_bytes
split_full bs h len =
    ap (λ (n : ℕ). split_bytes n (join_bytes bs)) (sym len) ∙ split-join_bytes bs h

-- The last word, which is not full.
pack_rest :
    (c : ℕ) (pre : List ℕ)
    → AreBytes (c ∷ pre)
    → suc (length pre) < 8
    → bytes_of (pack (λ b. b) [] (join_bytes (c ∷ pre)) (suc (length pre)) (suc (length pre)))
      ≡ (c ∷ pre) ++ padding (suc (length pre))
unfolding pack push_if get_bytes
pack_rest c pre k short =
    let some_left : (suc (length pre) == 0) ≡ false = ground arith in
    let room : (8 - suc (length pre) % 8) % 8 ≡ 8 - suc (length pre) = omega arith in
    let whole : suc (length pre) + (8 - suc (length pre)) ≡ 8 = omega arith in
    let bytes = split-join_zeros (c ∷ pre) (8 - suc (length pre)) k in
    rw (some_left, room) (append-nil _ ∙ (rw whole at bytes))

join_empty : join_bytes [] ≡ 0
unfolding join_bytes
join_empty = refl

pub length-zeros : (n : ℕ) → length (zeros n) ≡ n
length-zeros zero = refl
length-zeros (suc n) = ap suc (length-zeros n)

pub length-bytes_of : (ws : List ℕ) → length (bytes_of ws) ≡ 8 * length ws
unfolding get_bytes
length-bytes_of [] = refl
length-bytes_of (w ∷ ws) =
    omega
      (arith, length-append (get_bytes w) (bytes_of ws), length-split_bytes 8 w, length-bytes_of ws)

pub bytes_of-append : (xs ys : List ℕ) → bytes_of (xs ++ ys) ≡ bytes_of xs ++ bytes_of ys
bytes_of-append [] ys = refl
bytes_of-append (x ∷ xs) ys =
    ap (λ (t : List ℕ). get_bytes x ++ t) (bytes_of-append xs ys)
    ∙ sym (append_assoc (get_bytes x) (bytes_of xs) (bytes_of ys))

-- The loop, from bytes `pre` that it has already put into `next`.
pack-bytes_of :
    (bs pre : List ℕ)
    → AreBytes bs
    → AreBytes pre
    → length pre < 8
    → bytes_of (pack (λ b. b) bs (join_bytes pre) (length pre) (length pre))
      ≡ pre ++ (bs ++ padding (length pre + length bs))
pack-bytes_of [] [] h k short = unfold pack in unfold push_if in refl
pack-bytes_of [] (c ∷ pre) h k short =
    let nothing : suc (length pre) + 0 ≡ suc (length pre) = omega arith in
    rw nothing (pack_rest c pre k short)
pack-bytes_of (b ∷ bs) pre h k short = elim (Bool-cases (length pre + 1 == 8)) [
  | inl full ↦
      let eight : length (pre ++ (b ∷ [])) ≡ 8 = ground (arith, length-snoc pre b) in
      let bytes : AreBytes (pre ++ (b ∷ [])) = AreBytes-append pre (b ∷ []) k (h.0, tt) in
      let seven : suc (length pre) ≡ 8 = ground arith in
      let same : padding (length pre + suc (length bs)) ≡ padding (length bs) =
        ap padding (shift_one (length pre) (length bs))
        ∙ padding_whole (suc (length pre)) (length bs) seven in
      let ih : bytes_of (pack (λ c. c) bs 0 0 0) ≡ bs ++ padding (0 + length bs) =
        rw join_empty at (pack-bytes_of bs [] h.1 tt (omega arith)) in
      let none : 0 + length bs ≡ length bs = omega arith in
      rw (pack_full b bs pre h.0 k short full, split_full (pre ++ (b ∷ [])) bytes eight, same)
        (ap (λ (t : List ℕ). (pre ++ (b ∷ [])) ++ t) (rw none at ih) ∙ append_assoc pre (b ∷ []) _)
  | inr more ↦
      let bytes : AreBytes (pre ++ (b ∷ [])) = AreBytes-append pre (b ∷ []) k (h.0, tt) in
      let room : length (pre ++ (b ∷ [])) < 8 = ground (arith, length-snoc pre b) in
      let count : length (pre ++ (b ∷ [])) + length bs ≡ length pre + suc (length bs) =
        omega (arith, length-snoc pre b) in
      let ih = pack-bytes_of bs (pre ++ (b ∷ [])) h.1 bytes room in
      rw (pack_more b bs pre h.0 k short more)
        (ih ∙ append_assoc pre (b ∷ []) _ ∙ ap (λ (t : ℕ). pre ++ (b ∷ (bs ++ padding t))) count)
]

-- The bytes of the words are the given ones, filled up with zeros to whole words; there is a word also
-- when there is no byte.
pub bytes_of-get_longs :
    (bs : List ℕ)
    → AreBytes bs
    → bytes_of (get_longs bs) ≡ bs ++ (if length bs == 0 then zeros 8 else padding (length bs))
unfolding get_longs get_longs_of
bytes_of-get_longs [] h = unfold get_bytes in unfold split_bytes in refl
bytes_of-get_longs (b ∷ bs) h =
    let some_byte : (suc (length bs) == 0) ≡ false = ground arith in
    let none_before : 0 + suc (length bs) ≡ suc (length bs) = omega arith in
    rw some_byte (rw (join_empty, none_before) at (pack-bytes_of (b ∷ bs) [] h tt (omega arith)))

-- Characters that are ASCII are not extended with ones.
pack_ascii :
    (cs : List ℕ) (next position count : ℕ)
    → All (λ c. c < 2 ^ 7) cs
    → pack extend8 cs next position count ≡ pack (λ c. c) cs next position count
unfolding pack
pack_ascii [] next position count h = refl
pack_ascii (c ∷ cs) next position count h =
    let same : extend8 c ≡ c = ground (arith, h.0) in rw (same, pack_ascii cs _ _ _ h.1) refl

pub get_longs_str-get_longs :
    (cs : List ℕ) → All (λ c. c < 2 ^ 7) cs → get_longs_str cs ≡ get_longs cs
unfolding get_longs_str get_longs get_longs_of
get_longs_str-get_longs [] h = refl
get_longs_str-get_longs (c ∷ cs) h = pack_ascii (c ∷ cs) 0 0 0 h

-- The elements are 64-bit words.
pack-IsWord :
    (widen : ℕ → ℕ) (cs : List ℕ) (next position count : ℕ)
    → IsWord next
    → All IsWord (pack widen cs next position count)
unfolding pack push_if
pack-IsWord widen [] next position count h = elim (Bool-cases (count == 0)) [
  | inl none ↦ rw none tt
  | inr some ↦ rw some (h, tt)
]
pack-IsWord widen (c ∷ cs) next position count h =
    let shifted : widen c * 2 ^ (8 * position) % 2 ^ 64 < 2 ^ 64 = omega arith in
    let joined = bit_or-lt 64 next (widen c * 2 ^ (8 * position) % 2 ^ 64) h shifted in
    elim (Bool-cases (count + 1 == 8)) [
      | inl full ↦ rw full (joined, pack-IsWord widen cs 0 _ 0 (omega arith))
      | inr more ↦ rw more (pack-IsWord widen cs _ _ (count + 1) joined)
    ]

pub get_longs-IsWord : (bs : List ℕ) → All IsWord (get_longs bs)
unfolding get_longs get_longs_of
get_longs-IsWord [] = (omega arith, tt)
get_longs-IsWord (b ∷ bs) = pack-IsWord (λ c. c) (b ∷ bs) 0 0 0 (omega arith)
