-- ===== src/Ops/Math/Division.antt =====
-- The signed division instructions of wvm/src/Operations.cpp: divOp and modOp.
use why.Base.{
  ℕ, ◌+◌, ◌-◌, ◌*◌, ◌^◌, ◌<◌, ◌≡◌, ◌⊎◌, refl, true, false, ◌&&◌, ◌==◌, IsWord, is_negative,
}
use why.Machine.State.{Vm, M, ◌>>=◌, ◌>>◌, bind_outcome, pure, gets, get_reg}
use why.Machine.Control.{set_reg, increment}
use why.Ops.Alu.{defined, magnitude, differs}
use why.Ops.Alu.Division.{div_signed-mod_signed}
use why.Ops.Math.{div_op, mod_op}

-- The value goes to a register, with the flags set by it, and the next instruction follows.
abbrev pub stored : ℕ → ℕ → M (Unit {0})
stored rd value = do set_reg rd value true; increment

-- Where the divisor, the word in rt, is not zero, but for INT64_MIN by -1, divOp stores a quotient and
-- modOp a remainder of the word in rs. On absolute values the dividend is the divisor times the quotient
-- plus the remainder, and the remainder is below the divisor; a quotient that is not zero is negative
-- when the signs of the operands differ, and a remainder that is not zero has the dividend's sign.
pub div_op-mod_op :
    (vm : Vm) (rs rt rd : ℕ)
    → IsWord (vm.registers rs)
    → IsWord (vm.registers rt)
    → (vm.registers rt == 0) ≡ false
    → ((vm.registers rs == 2 ^ 63) && (vm.registers rt == 2 ^ 64 - 1)) ≡ false
    → (q : ℕ) × (r : ℕ) × (div_op rs rt rd vm ≡ stored rd q vm)
      × (mod_op rs rt rd vm ≡ stored rd r vm)
      × (magnitude (vm.registers rs) ≡ magnitude (vm.registers rt) * magnitude q + magnitude r)
      × (magnitude r < magnitude (vm.registers rt))
      × ((q ≡ 0)
          ⊎ (is_negative q
              ≡ differs (is_negative (vm.registers rs)) (is_negative (vm.registers rt))))
      × ((r ≡ 0) ⊎ (is_negative r ≡ is_negative (vm.registers rs)))
unfolding div_op mod_op defined get_reg gets pure ◌>>=◌ bind_outcome
div_op-mod_op vm rs rt rd v w nonzero fits =
    let (q, r, quotient, remainder, sum, below, sign, sign_left) =
      div_signed-mod_signed (vm.registers rs) (vm.registers rt) v w nonzero fits in
    (q, r, rw quotient refl, rw remainder refl, sum, below, sign, sign_left)
