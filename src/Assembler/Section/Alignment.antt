-- ===== src/Assembler/Section/Alignment.antt =====
-- The counter of a section and the number of its bytes.
use why.Base.{
  ℕ, zero, suc, ◌+◌, ◌-◌, ◌*◌, ◌/◌, ◌%◌, ◌^◌, ◌<◌, ◌≡◌, refl, sym, ap, ◌∙◌, inl, inr, false, ◌++◌,
  length, length-append, ◌==◌, arith, Bool-cases,
}
use mathlib.Core.List.{append-nil}
use native.Mathlib.Nat.{mod-eq_of_lt, mod-lt, div-add-mod, add-mul-mod_self_right}
use why.Object.Result.{done}
use why.Assembler.Section.{Section, replicate_byte, extend, advance, align_up}

length-replicate_byte : (n value : ℕ) → length (replicate_byte n value) ≡ n
unfolding replicate_byte
length-replicate_byte zero value = refl
length-replicate_byte (suc n) value = ap suc (length-replicate_byte n value)

-- The counter stands at the end of the bytes.
abbrev pub InStep : Section → Type 0
InStep s = s.counter ≡ length s.bytes

next_multiple :
    (n alignment : ℕ) → 0 < alignment → (n + (alignment - n % alignment)) % alignment ≡ 0
next_multiple n alignment h =
    let q = n / alignment in
    let whole : n + (alignment - n % alignment) ≡ 0 + suc q * alignment =
      omega (arith, div-add-mod n alignment, mod-lt n h) in
    ap (λ (t : ℕ). t % alignment) whole
    ∙ add-mul-mod_self_right 0 (suc q) alignment
    ∙ mod-eq_of_lt h

-- With the counter at the end of the bytes, alignUp to a positive alignment that stays below 2 ^ 64 adds
-- zeros, fewer than the alignment, and the counter that it returns is a multiple of the alignment
-- that again stands at the end of the bytes.
pub align_up-InStep :
    (alignment : ℕ) (s : Section)
    → 0 < alignment
    → s.counter + alignment < 2 ^ 64
    → InStep s
    → (after : Section) × (n : ℕ) × (align_up alignment s ≡ done (after, s.counter + n))
      × (n < alignment)
      × ((s.counter + n) % alignment ≡ 0)
      × (after.bytes ≡ s.bytes ++ replicate_byte n 0)
      × (after.counter ≡ s.counter + n)
      × InStep after
unfolding align_up extend advance
align_up-InStep alignment s positive room step =
    let some_alignment : (alignment == 0) ≡ false = ground arith in
    let to_add = alignment - s.counter % alignment in
    let wrapped : (s.counter + to_add) % 2 ^ 64 ≡ s.counter + to_add = mod-eq_of_lt (omega arith) in
    elim (Bool-cases (s.counter % alignment == 0)) [
      | inl aligned ↦
          let same : s.counter ≡ s.counter + 0 = omega arith in
          let zero_left : s.counter % alignment ≡ 0 = ground arith in
          (
            s,
            0,
            rw (some_alignment, aligned)
                (ap (λ (t : ℕ). let pair : Section × ℕ = (s, t) in done pair) same),
            positive,
            ap (λ (t : ℕ). t % alignment) (sym same) ∙ zero_left,
            sym (append-nil s.bytes),
            same,
            step,
          )
      | inr ragged ↦
          let some_left : 0 < s.counter % alignment = ground arith in
          (
            advance to_add (extend to_add 0 s),
            to_add,
            rw (some_alignment, ragged)
                (ap
                  (λ (t : ℕ).
                    let pair : Section × ℕ = (advance to_add (extend to_add 0 s), t) in done pair)
                  wrapped),
            omega arith,
            next_multiple s.counter alignment positive,
            refl,
            wrapped,
            wrapped
                ∙ omega (
                  arith,
                  length-append s.bytes (replicate_byte to_add 0),
                  length-replicate_byte to_add 0,
                ),
          )
    ]
