-- ===== src/Machine/Memory/Bytes.antt =====
-- `split_bytes` and `join_bytes` are inverse on bytes.
use why.Base.{
  ℕ, zero, suc, ◌+◌, ◌*◌, ◌/◌, ◌%◌, ◌^◌, ◌<◌, ◌≡◌, refl, sym, ap, ◌∙◌, List, [], ◌∷◌, ◌++◌, reverse,
  length, length-append, All, arith,
}
use why.Base.Bits.{bit_or_fields}
use native.Mathlib.Nat.{div-add-mod, mod-lt, mod-eq_of_lt, add-mul-mod_self_right}
use mathlib.Core.List.{reverse-cons, reverse-reverse}
use why.Machine.Types.{Endianness}
use why.Machine.Memory.{split_bytes, join_bytes, ordered}

abbrev pub AreBytes : List ℕ → Type 0
AreBytes bs = All (λ b. b < 2 ^ 8) bs

-- 256 ^ n, the number of values of n bytes.
abbrev pub span_mod : ℕ → ℕ
span_mod zero = 1
span_mod (suc n) = span_mod n * 2 ^ 8

pub length-split_bytes : (n value : ℕ) → length (split_bytes n value) ≡ n
unfolding split_bytes
length-split_bytes zero value = refl
length-split_bytes (suc n) value = ap suc (length-split_bytes n (value / 2 ^ 8))

pub AreBytes-split_bytes : (n value : ℕ) → AreBytes (split_bytes n value)
unfolding split_bytes
AreBytes-split_bytes zero value = tt
AreBytes-split_bytes (suc n) value = (omega arith, AreBytes-split_bytes n (value / 2 ^ 8))

span_mod-pos : (n : ℕ) → 0 < span_mod n
span_mod-pos zero = omega arith
span_mod-pos (suc n) = omega (arith, span_mod-pos n)

-- The remainder by `s * 256`, from the lowest byte and the rest.
mod_by_bytes : (s v : ℕ) → 0 < s → v % (s * 256) ≡ v / 256 % s * 256 + v % 256
mod_by_bytes s v h =
    let top = v / 256 / s in
    let low = v / 256 % s * 256 + v % 256 in
    let parts : v ≡ low + top * (s * 256) =
      omega (arith, ap (λ (t : ℕ). t * 256) (div-add-mod (v / 256) s)) in
    let fits : low < s * 256 = omega (arith, mod-lt (v / 256) h) in
    ap (λ (t : ℕ). t % (s * 256)) parts
    ∙ add-mul-mod_self_right low top (s * 256)
    ∙ mod-eq_of_lt fits

-- The bytes of a value join to the value's low bits.
pub join-split_bytes : (n value : ℕ) → join_bytes (split_bytes n value) ≡ value % span_mod n
unfolding split_bytes join_bytes
join-split_bytes zero value = ground arith
join-split_bytes (suc n) value =
    rw (bit_or_fields 8 _ (value % 2 ^ 8) (omega arith), join-split_bytes n (value / 2 ^ 8))
      (sym (mod_by_bytes (span_mod n) value (span_mod-pos n)))

-- And the value of some bytes splits into them.
pub split-join_bytes : (bs : List ℕ) → AreBytes bs → split_bytes (length bs) (join_bytes bs) ≡ bs
unfolding split_bytes join_bytes
split-join_bytes [] h = refl
split-join_bytes (b ∷ bs) h =
    let sum = bit_or_fields 8 (join_bytes bs) b h.0 in
    let low : (join_bytes bs * 2 ^ 8 + b) % 2 ^ 8 ≡ b = omega (arith, h.0) in
    let high : (join_bytes bs * 2 ^ 8 + b) / 2 ^ 8 ≡ join_bytes bs = omega (arith, h.0) in
    rw (sum, low, high) (ap (λ (t : List ℕ). b ∷ t) (split-join_bytes bs h.1))

pub join_bytes-lt : (bs : List ℕ) → AreBytes bs → join_bytes bs < span_mod (length bs)
unfolding join_bytes
join_bytes-lt [] h = omega arith
join_bytes-lt (b ∷ bs) h = ground (arith, bit_or_fields 8 (join_bytes bs) b, join_bytes-lt bs h.1)

pub length-reverse {ℓ} : {A : Type ℓ} (xs : List A) → length (reverse xs) ≡ length xs
length-reverse [] = refl
length-reverse (x ∷ xs) =
    ground
      (arith, ap length (reverse-cons x xs), length-append (reverse xs) (x ∷ []), length-reverse xs)

pub length-ordered : (e : Endianness) (bs : List ℕ) → length (ordered e bs) ≡ length bs
unfolding ordered
length-ordered Endianness.little bs = refl
length-ordered Endianness.big bs = length-reverse bs

pub ordered-ordered : (e : Endianness) (bs : List ℕ) → ordered e (ordered e bs) ≡ bs
unfolding ordered
ordered-ordered Endianness.little bs = refl
ordered-ordered Endianness.big bs = reverse-reverse bs

pub AreBytes-append : (xs ys : List ℕ) → AreBytes xs → AreBytes ys → AreBytes (xs ++ ys)
AreBytes-append [] ys h k = k
AreBytes-append (x ∷ xs) ys h k = (h.0, AreBytes-append xs ys h.1 k)

pub AreBytes-reverse : (bs : List ℕ) → AreBytes bs → AreBytes (reverse bs)
AreBytes-reverse [] h = h
AreBytes-reverse (b ∷ bs) h =
    rw reverse-cons (AreBytes-append (reverse bs) (b ∷ []) (AreBytes-reverse bs h.1) (h.0, tt))

pub AreBytes-ordered : (e : Endianness) (bs : List ℕ) → AreBytes bs → AreBytes (ordered e bs)
unfolding ordered
AreBytes-ordered Endianness.little bs h = h
AreBytes-ordered Endianness.big bs h = AreBytes-reverse bs h
