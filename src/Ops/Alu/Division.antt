-- ===== src/Ops/Alu/Division.antt =====
-- The laws of the division instructions.
use why.Base.{
  ℕ, zero, suc, ◌+◌, ◌-◌, ◌*◌, ◌/◌, ◌%◌, ◌^◌, ◌≤◌, ◌<◌, ◌≡◌, ◌⊎◌, inl, inr, refl, ap, Bool, true,
  false, ◌&&◌, some, ◌==◌, IsWord, is_negative, arith, Bool-cases, ltb, ltb→lt,
}
use native.Mathlib.Nat.{div-add-mod, mod-lt, div-le_self}
use why.Ops.Alu.{div_signed, mod_signed, magnitude, with_sign, differs}

magnitude_le : (a : ℕ) → IsWord a → magnitude a ≤ 2 ^ 63
unfolding magnitude
magnitude_le a w = ground arith

magnitude_pos : (b : ℕ) → IsWord b → (b == 0) ≡ false → 0 < magnitude b
unfolding magnitude
magnitude_pos b w h = ground arith

-- The sign and the absolute value give the absolute value back, where they are those of an int64_t.
magnitude-with_sign :
    (b : Bool) (n : ℕ) → n ≤ 2 ^ 63 → (b ≡ true) ⊎ (n < 2 ^ 63) → magnitude (with_sign b n) ≡ n
unfolding magnitude with_sign
magnitude-with_sign true n h k = ground arith
magnitude-with_sign false n h (inl e) = cc
magnitude-with_sign false n h (inr k) = ground arith

-- And the sign, where the value is not zero.
sign-with_sign :
    (b : Bool) (n : ℕ)
    → n ≤ 2 ^ 63
    → (b ≡ true) ⊎ (n < 2 ^ 63)
    → (with_sign b n ≡ 0) ⊎ (is_negative (with_sign b n) ≡ b)
unfolding with_sign
sign-with_sign true zero h k = inl (omega arith)
sign-with_sign true (suc n) h k = inr (ground arith)
sign-with_sign false n h (inl e) = cc
sign-with_sign false n h (inr k) = inr (ground arith)

-- A quotient that is too large for a positive int64_t is that of INT64_MIN and 1 or -1.
quotient_one : (q d r : ℕ) → 2 ^ 63 ≤ q → 0 < d → d * q + r ≤ 2 ^ 63 → d ≡ 1
quotient_one q zero r h p k = absurd (omega arith)
quotient_one q (suc zero) r h p k = refl
quotient_one q (suc (suc d)) r h p k = absurd (omega arith)

top_word : (a : ℕ) → IsWord a → 2 ^ 63 ≤ magnitude a → a ≡ 2 ^ 63
unfolding magnitude
top_word a v h = ground arith

unit_word : (b : ℕ) → IsWord b → magnitude b ≡ 1 → (b ≡ 1) ⊎ (b ≡ 2 ^ 64 - 1)
unfolding magnitude
unit_word b w h = ground arith

top_differs :
    (b : ℕ)
    → (b ≡ 1) ⊎ (b ≡ 2 ^ 64 - 1)
    → (b == 2 ^ 64 - 1) ≡ false
    → differs true (is_negative b) ≡ true
top_differs b (inl e) h = rw e refl
top_differs b (inr e) h = absurd (ground arith)

positive_quotient :
    (a b : ℕ)
    → IsWord a
    → IsWord b
    → (b == 0) ≡ false
    → ((a == 2 ^ 63) && (b == 2 ^ 64 - 1)) ≡ false
    → (differs (is_negative a) (is_negative b) ≡ true) ⊎ (magnitude a / magnitude b < 2 ^ 63)
unfolding magnitude
positive_quotient a b v w nz fits = elim (Bool-cases (ltb (magnitude a / magnitude b) (2 ^ 63))) [
  | inl small ↦ inr (ltb→lt _ _ small)
  | inr large ↦
      let one : magnitude b ≡ 1 =
        quotient_one (magnitude a / magnitude b) (magnitude b) (magnitude a % magnitude b)
          (ground arith) (magnitude_pos b w nz)
          (omega (arith, div-add-mod (magnitude a) (magnitude b), magnitude_le a v)) in
      let top : a ≡ 2 ^ 63 =
        top_word a v (ground (arith, div-le_self (magnitude a) (magnitude b))) in
      let other : (b == 2 ^ 64 - 1) ≡ false = ground arith in
      inl (rw top (top_differs b (unit_word b w one) other))
]

-- For words and a divisor that is not zero, but for INT64_MIN by -1, the signed quotient and remainder
-- are defined; on absolute values, the dividend is the divisor times the quotient plus the remainder,
-- and the remainder is below the divisor. A quotient that is not zero is negative when the signs of the
-- operands differ, and a remainder that is not zero has the sign of the dividend.
pub div_signed-mod_signed :
    (a b : ℕ)
    → IsWord a
    → IsWord b
    → (b == 0) ≡ false
    → ((a == 2 ^ 63) && (b == 2 ^ 64 - 1)) ≡ false
    → (q : ℕ) × (r : ℕ) × (div_signed a b ≡ some q)
      × (mod_signed a b ≡ some r)
      × (magnitude a ≡ magnitude b * magnitude q + magnitude r)
      × (magnitude r < magnitude b)
      × ((q ≡ 0) ⊎ (is_negative q ≡ differs (is_negative a) (is_negative b)))
      × ((r ≡ 0) ⊎ (is_negative r ≡ is_negative a))
unfolding div_signed mod_signed
div_signed-mod_signed a b v w nz fits = (
  with_sign (differs (is_negative a) (is_negative b)) (magnitude a / magnitude b),
  with_sign (is_negative a) (magnitude a % magnitude b),
  rw (nz, fits) refl,
  rw (nz, fits) refl,
  omega (
    arith,
    div-add-mod (magnitude a) (magnitude b),
    ap (λ n. magnitude b * n) quotient,
    remainder,
  ),
  omega (arith, remainder, below),
  sign-with_sign (differs (is_negative a) (is_negative b)) (magnitude a / magnitude b)
      (omega (arith, div-le_self (magnitude a) (magnitude b), magnitude_le a v))
      (positive_quotient a b v w nz fits),
  sign-with_sign (is_negative a) (magnitude a % magnitude b)
      (omega (arith, below, magnitude_le b w)) (inr (omega (arith, below, magnitude_le b w))),
)
  where
    below : magnitude a % magnitude b < magnitude b
    below = mod-lt (magnitude a) (magnitude_pos b w nz)

    quotient :
        magnitude (with_sign (differs (is_negative a) (is_negative b)) (magnitude a / magnitude b))
        ≡ magnitude a / magnitude b
    quotient =
        magnitude-with_sign (differs (is_negative a) (is_negative b)) (magnitude a / magnitude b)
          (omega (arith, div-le_self (magnitude a) (magnitude b), magnitude_le a v))
          (positive_quotient a b v w nz fits)

    remainder :
        magnitude (with_sign (is_negative a) (magnitude a % magnitude b))
        ≡ magnitude a % magnitude b
    remainder =
        magnitude-with_sign (is_negative a) (magnitude a % magnitude b)
          (omega (arith, below, magnitude_le b w)) (inr (omega (arith, below, magnitude_le b w)))
