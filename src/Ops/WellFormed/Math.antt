-- ===== src/Ops/WellFormed/Math.antt =====
-- The R-type arithmetic keeps the invariant.
use why.Base.{true, ℕ, arith}
use why.Machine.Ensures.{Keeps}
use why.Machine.WellFormed.{WellFormed}
use why.Ops.Math.{
  add_op, sub_op, mult_op, multu_op, sll_op, srl_op, sra_op, mod_op, div_op, divu_op, modu_op,
  sext32_op, sext16_op, sext8_op, multiply,
}
use why.Machine.Types.{bit_at}
use why.Machine.WellFormed.Accessors.{get_reg-WellFormed}
use why.Machine.WellFormed.Actions.{set_reg-WellFormed, increment-WellFormed}
use why.Ops.WellFormed.Values.{compute_rules, Ensures-word, Ensures-then, extended-IsWord}

module _ {lowest size : ℕ} where
  pub multiply-WellFormed : (x y : ℕ) → Keeps (WellFormed lowest size) (multiply x y)
  unfolding multiply
  multiply-WellFormed x y = search compute_rules depth 14

  pub add_op-WellFormed : (rs rt rd : ℕ) → Keeps (WellFormed lowest size) (add_op rs rt rd)
  unfolding add_op
  add_op-WellFormed rs rt rd = search compute_rules depth 14

  pub sub_op-WellFormed : (rs rt rd : ℕ) → Keeps (WellFormed lowest size) (sub_op rs rt rd)
  unfolding sub_op
  sub_op-WellFormed rs rt rd = search compute_rules depth 14

  pub mult_op-WellFormed : (rs rt rd : ℕ) → Keeps (WellFormed lowest size) (mult_op rs rt rd)
  unfolding mult_op
  mult_op-WellFormed rs rt rd = search (compute_rules, multiply-WellFormed) depth 14

  pub multu_op-WellFormed : (rs rt rd : ℕ) → Keeps (WellFormed lowest size) (multu_op rs rt rd)
  unfolding multu_op
  multu_op-WellFormed rs rt rd = search (compute_rules, mult_op-WellFormed) depth 14

  pub sll_op-WellFormed : (rs rt rd : ℕ) → Keeps (WellFormed lowest size) (sll_op rs rt rd)
  unfolding sll_op
  sll_op-WellFormed rs rt rd = search compute_rules depth 14

  pub srl_op-WellFormed : (rs rt rd : ℕ) → Keeps (WellFormed lowest size) (srl_op rs rt rd)
  unfolding srl_op
  srl_op-WellFormed rs rt rd = search compute_rules depth 14

  pub sra_op-WellFormed : (rs rt rd : ℕ) → Keeps (WellFormed lowest size) (sra_op rs rt rd)
  unfolding sra_op
  sra_op-WellFormed rs rt rd = search compute_rules depth 14

  pub mod_op-WellFormed : (rs rt rd : ℕ) → Keeps (WellFormed lowest size) (mod_op rs rt rd)
  unfolding mod_op
  mod_op-WellFormed rs rt rd = search compute_rules depth 14

  pub div_op-WellFormed : (rs rt rd : ℕ) → Keeps (WellFormed lowest size) (div_op rs rt rd)
  unfolding div_op
  div_op-WellFormed rs rt rd = search compute_rules depth 14

  pub divu_op-WellFormed : (rs rt rd : ℕ) → Keeps (WellFormed lowest size) (divu_op rs rt rd)
  unfolding divu_op
  divu_op-WellFormed rs rt rd = search compute_rules depth 14

  pub modu_op-WellFormed : (rs rt rd : ℕ) → Keeps (WellFormed lowest size) (modu_op rs rt rd)
  unfolding modu_op
  modu_op-WellFormed rs rt rd = search compute_rules depth 14

  pub sext32_op-WellFormed : (rs rt rd : ℕ) → Keeps (WellFormed lowest size) (sext32_op rs rt rd)
  unfolding sext32_op
  sext32_op-WellFormed rs rt rd = Ensures-word _ _ (get_reg-WellFormed rs) λ a w.
      Ensures-then _ _
        (set_reg-WellFormed rd _ true
          (extended-IsWord (bit_at 31 a) 0xffff_ffff_0000_0000 0xffffffff a (omega arith) w))
        increment-WellFormed

  pub sext16_op-WellFormed : (rs rt rd : ℕ) → Keeps (WellFormed lowest size) (sext16_op rs rt rd)
  unfolding sext16_op
  sext16_op-WellFormed rs rt rd = Ensures-word _ _ (get_reg-WellFormed rs) λ a w.
      Ensures-then _ _
        (set_reg-WellFormed rd _ true
          (extended-IsWord (bit_at 15 a) 0xffff_ffff_ffff_0000 0xffff a (omega arith) w))
        increment-WellFormed

  pub sext8_op-WellFormed : (rs rt rd : ℕ) → Keeps (WellFormed lowest size) (sext8_op rs rt rd)
  unfolding sext8_op
  sext8_op-WellFormed rs rt rd = Ensures-word _ _ (get_reg-WellFormed rs) λ a w.
      Ensures-then _ _
        (set_reg-WellFormed rd _ true
          (extended-IsWord (bit_at 7 a) 0xffff_ffff_ffff_ff00 0xff a (omega arith) w))
        increment-WellFormed
