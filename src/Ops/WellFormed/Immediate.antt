-- ===== src/Ops/WellFormed/Immediate.antt =====
-- The I-type arithmetic and logic keep the invariant.
use why.Base.{ℕ, ◌^◌, ◌<◌}
use why.Machine.Ensures.{Keeps}
use why.Machine.WellFormed.{WellFormed}
use why.Ops.Immediate.{
  addi_op, subi_op, multi_op, multui_op, slli_op, srli_op, srai_op, modi_op, divi_op, divui_op,
  modui_op, sllii_op, srlii_op, sraii_op, divii_op, divuii_op, andi_op, nandi_op, nori_op, ori_op,
  xnori_op, xori_op, lui_op, set_op,
}
use why.Ops.WellFormed.Math.{multiply-WellFormed}
use why.Ops.WellFormed.Values.{compute_rules}

module _ {lowest size : ℕ} where
  pub addi_op-WellFormed :
      (rs rd immediate : ℕ)
      → immediate < 2 ^ 32
      → Keeps (WellFormed lowest size) (addi_op rs rd immediate)
  unfolding addi_op
  addi_op-WellFormed rs rd immediate fits = search compute_rules depth 14

  pub subi_op-WellFormed :
      (rs rd immediate : ℕ)
      → immediate < 2 ^ 32
      → Keeps (WellFormed lowest size) (subi_op rs rd immediate)
  unfolding subi_op
  subi_op-WellFormed rs rd immediate fits = search compute_rules depth 14

  pub multi_op-WellFormed :
      (rs rd immediate : ℕ)
      → immediate < 2 ^ 32
      → Keeps (WellFormed lowest size) (multi_op rs rd immediate)
  unfolding multi_op
  multi_op-WellFormed rs rd immediate fits = search (compute_rules, multiply-WellFormed) depth 14

  pub multui_op-WellFormed :
      (rs rd immediate : ℕ)
      → immediate < 2 ^ 32
      → Keeps (WellFormed lowest size) (multui_op rs rd immediate)
  unfolding multui_op
  multui_op-WellFormed rs rd immediate fits = search (compute_rules, multiply-WellFormed) depth 14

  pub slli_op-WellFormed :
      (rs rd immediate : ℕ)
      → immediate < 2 ^ 32
      → Keeps (WellFormed lowest size) (slli_op rs rd immediate)
  unfolding slli_op
  slli_op-WellFormed rs rd immediate fits = search compute_rules depth 14

  pub srli_op-WellFormed :
      (rs rd immediate : ℕ)
      → immediate < 2 ^ 32
      → Keeps (WellFormed lowest size) (srli_op rs rd immediate)
  unfolding srli_op
  srli_op-WellFormed rs rd immediate fits = search compute_rules depth 14

  pub srai_op-WellFormed :
      (rs rd immediate : ℕ)
      → immediate < 2 ^ 32
      → Keeps (WellFormed lowest size) (srai_op rs rd immediate)
  unfolding srai_op
  srai_op-WellFormed rs rd immediate fits = search compute_rules depth 14

  pub modi_op-WellFormed :
      (rs rd immediate : ℕ)
      → immediate < 2 ^ 32
      → Keeps (WellFormed lowest size) (modi_op rs rd immediate)
  unfolding modi_op
  modi_op-WellFormed rs rd immediate fits = search compute_rules depth 14

  pub divi_op-WellFormed :
      (rs rd immediate : ℕ)
      → immediate < 2 ^ 32
      → Keeps (WellFormed lowest size) (divi_op rs rd immediate)
  unfolding divi_op
  divi_op-WellFormed rs rd immediate fits = search compute_rules depth 14

  pub divui_op-WellFormed :
      (rs rd immediate : ℕ)
      → immediate < 2 ^ 32
      → Keeps (WellFormed lowest size) (divui_op rs rd immediate)
  unfolding divui_op
  divui_op-WellFormed rs rd immediate fits = search compute_rules depth 14

  pub modui_op-WellFormed :
      (rs rd immediate : ℕ)
      → immediate < 2 ^ 32
      → Keeps (WellFormed lowest size) (modui_op rs rd immediate)
  unfolding modui_op
  modui_op-WellFormed rs rd immediate fits = search compute_rules depth 14

  pub sllii_op-WellFormed :
      (rs rd immediate : ℕ)
      → immediate < 2 ^ 32
      → Keeps (WellFormed lowest size) (sllii_op rs rd immediate)
  unfolding sllii_op
  sllii_op-WellFormed rs rd immediate fits = search compute_rules depth 14

  pub srlii_op-WellFormed :
      (rs rd immediate : ℕ)
      → immediate < 2 ^ 32
      → Keeps (WellFormed lowest size) (srlii_op rs rd immediate)
  unfolding srlii_op
  srlii_op-WellFormed rs rd immediate fits = search compute_rules depth 14

  pub sraii_op-WellFormed :
      (rs rd immediate : ℕ)
      → immediate < 2 ^ 32
      → Keeps (WellFormed lowest size) (sraii_op rs rd immediate)
  unfolding sraii_op
  sraii_op-WellFormed rs rd immediate fits = search compute_rules depth 14

  pub divii_op-WellFormed :
      (rs rd immediate : ℕ)
      → immediate < 2 ^ 32
      → Keeps (WellFormed lowest size) (divii_op rs rd immediate)
  unfolding divii_op
  divii_op-WellFormed rs rd immediate fits = search compute_rules depth 14

  pub divuii_op-WellFormed :
      (rs rd immediate : ℕ)
      → immediate < 2 ^ 32
      → Keeps (WellFormed lowest size) (divuii_op rs rd immediate)
  unfolding divuii_op
  divuii_op-WellFormed rs rd immediate fits = search compute_rules depth 14

  pub andi_op-WellFormed :
      (rs rd immediate : ℕ)
      → immediate < 2 ^ 32
      → Keeps (WellFormed lowest size) (andi_op rs rd immediate)
  unfolding andi_op
  andi_op-WellFormed rs rd immediate fits = search compute_rules depth 14

  pub nandi_op-WellFormed :
      (rs rd immediate : ℕ)
      → immediate < 2 ^ 32
      → Keeps (WellFormed lowest size) (nandi_op rs rd immediate)
  unfolding nandi_op
  nandi_op-WellFormed rs rd immediate fits = search compute_rules depth 14

  pub nori_op-WellFormed :
      (rs rd immediate : ℕ)
      → immediate < 2 ^ 32
      → Keeps (WellFormed lowest size) (nori_op rs rd immediate)
  unfolding nori_op
  nori_op-WellFormed rs rd immediate fits = search compute_rules depth 14

  pub ori_op-WellFormed :
      (rs rd immediate : ℕ)
      → immediate < 2 ^ 32
      → Keeps (WellFormed lowest size) (ori_op rs rd immediate)
  unfolding ori_op
  ori_op-WellFormed rs rd immediate fits = search compute_rules depth 14

  pub xnori_op-WellFormed :
      (rs rd immediate : ℕ)
      → immediate < 2 ^ 32
      → Keeps (WellFormed lowest size) (xnori_op rs rd immediate)
  unfolding xnori_op
  xnori_op-WellFormed rs rd immediate fits = search compute_rules depth 14

  pub xori_op-WellFormed :
      (rs rd immediate : ℕ)
      → immediate < 2 ^ 32
      → Keeps (WellFormed lowest size) (xori_op rs rd immediate)
  unfolding xori_op
  xori_op-WellFormed rs rd immediate fits = search compute_rules depth 14

  pub lui_op-WellFormed :
      (rs rd immediate : ℕ)
      → immediate < 2 ^ 32
      → Keeps (WellFormed lowest size) (lui_op rs rd immediate)
  unfolding lui_op
  lui_op-WellFormed rs rd immediate fits = search compute_rules depth 14

  pub set_op-WellFormed :
      (rs rd immediate : ℕ)
      → immediate < 2 ^ 32
      → Keeps (WellFormed lowest size) (set_op rs rd immediate)
  unfolding set_op
  set_op-WellFormed rs rd immediate fits = search compute_rules depth 14
