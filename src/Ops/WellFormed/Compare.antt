-- ===== src/Ops/WellFormed/Compare.antt =====
-- The comparisons keep the invariant.
use why.Base.{ℕ, ◌^◌, ◌<◌}
use why.Machine.Ensures.{Keeps}
use why.Machine.WellFormed.{WellFormed}
use why.Ops.Compare.{
  sl_op, sle_op, seq_op, slu_op, sleu_op, cmp_op, sli_op, slei_op, seqi_op, slui_op, sleui_op,
  sgi_op, sgei_op, sgeui_op, sgui_op, cmpi_op,
}
use why.Ops.WellFormed.Values.{compute_rules}

module _ {lowest size : ℕ} where
  pub sl_op-WellFormed : (rs rt rd : ℕ) → Keeps (WellFormed lowest size) (sl_op rs rt rd)
  unfolding sl_op
  sl_op-WellFormed rs rt rd = search compute_rules depth 14

  pub sle_op-WellFormed : (rs rt rd : ℕ) → Keeps (WellFormed lowest size) (sle_op rs rt rd)
  unfolding sle_op
  sle_op-WellFormed rs rt rd = search compute_rules depth 14

  pub seq_op-WellFormed : (rs rt rd : ℕ) → Keeps (WellFormed lowest size) (seq_op rs rt rd)
  unfolding seq_op
  seq_op-WellFormed rs rt rd = search compute_rules depth 14

  pub slu_op-WellFormed : (rs rt rd : ℕ) → Keeps (WellFormed lowest size) (slu_op rs rt rd)
  unfolding slu_op
  slu_op-WellFormed rs rt rd = search compute_rules depth 14

  pub sleu_op-WellFormed : (rs rt rd : ℕ) → Keeps (WellFormed lowest size) (sleu_op rs rt rd)
  unfolding sleu_op
  sleu_op-WellFormed rs rt rd = search compute_rules depth 14

  pub cmp_op-WellFormed : (rs rt rd : ℕ) → Keeps (WellFormed lowest size) (cmp_op rs rt rd)
  unfolding cmp_op
  cmp_op-WellFormed rs rt rd = search compute_rules depth 14

  pub sli_op-WellFormed :
      (rs rd immediate : ℕ)
      → immediate < 2 ^ 32
      → Keeps (WellFormed lowest size) (sli_op rs rd immediate)
  unfolding sli_op
  sli_op-WellFormed rs rd immediate fits = search compute_rules depth 14

  pub slei_op-WellFormed :
      (rs rd immediate : ℕ)
      → immediate < 2 ^ 32
      → Keeps (WellFormed lowest size) (slei_op rs rd immediate)
  unfolding slei_op
  slei_op-WellFormed rs rd immediate fits = search compute_rules depth 14

  pub seqi_op-WellFormed :
      (rs rd immediate : ℕ)
      → immediate < 2 ^ 32
      → Keeps (WellFormed lowest size) (seqi_op rs rd immediate)
  unfolding seqi_op
  seqi_op-WellFormed rs rd immediate fits = search compute_rules depth 14

  pub slui_op-WellFormed :
      (rs rd immediate : ℕ)
      → immediate < 2 ^ 32
      → Keeps (WellFormed lowest size) (slui_op rs rd immediate)
  unfolding slui_op
  slui_op-WellFormed rs rd immediate fits = search compute_rules depth 14

  pub sleui_op-WellFormed :
      (rs rd immediate : ℕ)
      → immediate < 2 ^ 32
      → Keeps (WellFormed lowest size) (sleui_op rs rd immediate)
  unfolding sleui_op
  sleui_op-WellFormed rs rd immediate fits = search compute_rules depth 14

  pub sgi_op-WellFormed :
      (rs rd immediate : ℕ)
      → immediate < 2 ^ 32
      → Keeps (WellFormed lowest size) (sgi_op rs rd immediate)
  unfolding sgi_op
  sgi_op-WellFormed rs rd immediate fits = search compute_rules depth 14

  pub sgei_op-WellFormed :
      (rs rd immediate : ℕ)
      → immediate < 2 ^ 32
      → Keeps (WellFormed lowest size) (sgei_op rs rd immediate)
  unfolding sgei_op
  sgei_op-WellFormed rs rd immediate fits = search compute_rules depth 14

  pub sgeui_op-WellFormed :
      (rs rd immediate : ℕ)
      → immediate < 2 ^ 32
      → Keeps (WellFormed lowest size) (sgeui_op rs rd immediate)
  unfolding sgeui_op
  sgeui_op-WellFormed rs rd immediate fits = search compute_rules depth 14

  pub sgui_op-WellFormed :
      (rs rd immediate : ℕ)
      → immediate < 2 ^ 32
      → Keeps (WellFormed lowest size) (sgui_op rs rd immediate)
  unfolding sgui_op
  sgui_op-WellFormed rs rd immediate fits = search compute_rules depth 14

  pub cmpi_op-WellFormed :
      (rs rd immediate : ℕ)
      → immediate < 2 ^ 32
      → Keeps (WellFormed lowest size) (cmpi_op rs rd immediate)
  unfolding cmpi_op
  cmpi_op-WellFormed rs rd immediate fits = search compute_rules depth 14
