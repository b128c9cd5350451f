-- ===== src/Machine/Control/Conditions.antt =====
-- What the flags and the conditions of an instruction mean together.
use why.Base.{
  ℕ, zero, suc, ◌-◌, ◌^◌, ◌≡◌, refl, ◌∙◌, ap, Bool, true, false, ltb, ℤ, pos, negsuc, signed, arith,
  inl, inr, Bool-cases,
}
use why.Machine.Reg
use why.Machine.State.{Vm, ok, update, get_reg, put_reg, ◌>>=◌, bind_outcome, gets, modify, pure}
use why.Machine.Control.{update_flags, flags_of, check_conditions, set_z, set_n}

-- A condition of an instruction, on the result that the flags were set by: p, n, z, nz and none.
pub data Condition : Type 0 where
  positive negative is_zero nonzero always : Condition

-- The bits of the condition, `Conditions` of Defs.h.
pub condition_code : Condition → ℕ
condition_code positive = 8
condition_code negative = 9
condition_code is_zero = 10
condition_code nonzero = 11
condition_code always = 0

pub holds_of : Condition → ℤ → Bool
holds_of positive (pos zero) = false
holds_of positive (pos (suc n)) = true
holds_of positive (negsuc n) = false
holds_of negative (pos n) = false
holds_of negative (negsuc n) = true
holds_of is_zero (pos zero) = true
holds_of is_zero _ = false
holds_of nonzero (pos zero) = false
holds_of nonzero _ = true
holds_of always _ = true

module _ (vm : Vm) where
  status_zero :
      (c : Condition)
      → vm.registers Reg.status ≡ 1
      → check_conditions (condition_code c) vm ≡ ok (holds_of c (pos 0)) vm
  unfolding check_conditions condition_code holds_of ◌>>=◌ bind_outcome get_reg gets pure
  status_zero positive h = rw h refl
  status_zero negative h = rw h refl
  status_zero is_zero h = rw h refl
  status_zero nonzero h = rw h refl
  status_zero always h = refl

  status_negative :
      (c : Condition) (n : ℕ)
      → vm.registers Reg.status ≡ 2
      → check_conditions (condition_code c) vm ≡ ok (holds_of c (negsuc n)) vm
  unfolding check_conditions condition_code holds_of ◌>>=◌ bind_outcome get_reg gets pure
  status_negative positive n h = rw h refl
  status_negative negative n h = rw h refl
  status_negative is_zero n h = rw h refl
  status_negative nonzero n h = rw h refl
  status_negative always n h = refl

  status_positive :
      (c : Condition) (n : ℕ)
      → vm.registers Reg.status ≡ 0
      → check_conditions (condition_code c) vm ≡ ok (holds_of c (pos (suc n))) vm
  unfolding check_conditions condition_code holds_of ◌>>=◌ bind_outcome get_reg gets pure
  status_positive positive n h = rw h refl
  status_positive negative n h = rw h refl
  status_positive is_zero n h = rw h refl
  status_positive nonzero n h = rw h refl
  status_positive always n h = refl

-- The machine after the flags are set by a result.
abbrev pub flagged : ℕ → Vm → Vm
unfolding flags_of
flagged v vm = record vm { registers = update vm.registers Reg.status (flags_of v) }

agrees :
    (c : Condition) (v : ℕ) (vm : Vm)
    → check_conditions (condition_code c) (flagged v vm) ≡ ok (holds_of c (signed v)) (flagged v vm)
unfolding flagged flags_of set_z set_n
agrees c zero vm = status_zero (flagged 0 vm) c refl
agrees c (suc n) vm = elim (Bool-cases (ltb (suc n) (2 ^ 63))) [
  | inl small ↦
      status_positive (flagged (suc n) vm) c n (ground arith)
      ∙ ap (λ z. ok (holds_of c z) (flagged (suc n) vm)) (rw small refl)
  | inr large ↦
      status_negative (flagged (suc n) vm) c (2 ^ 64 - suc n - 1) (ground arith)
      ∙ ap (λ z. ok (holds_of c z) (flagged (suc n) vm)) (rw large refl)
]

-- After the flags are set by a word, each condition of an instruction is decided as its name says, by the
-- signed value of the word.
pub check_conditions-update_flags :
    (v : ℕ) (c : Condition) (vm : Vm)
    → (update_flags v vm ≡ ok tt (flagged v vm))
      × (check_conditions (condition_code c) (flagged v vm)
          ≡ ok (holds_of c (signed v)) (flagged v vm))
unfolding update_flags put_reg modify flagged
check_conditions-update_flags v c vm = (refl, agrees c v vm)
