-- ===== src/Ops/WellFormed/Logic.antt =====
-- The R-type logic keeps the invariant.
use why.Base.{ℕ}
use why.Machine.Ensures.{Keeps}
use why.Machine.WellFormed.{WellFormed}
use why.Ops.Logic.{
  and_op, nand_op, nor_op, not_op, or_op, xnor_op, xor_op, land_op, lnand_op, lnor_op, lnot_op,
  lor_op, lxnor_op, lxor_op,
}
use why.Ops.WellFormed.Values.{compute_rules}

module _ {lowest size : ℕ} where
  pub and_op-WellFormed : (rs rt rd : ℕ) → Keeps (WellFormed lowest size) (and_op rs rt rd)
  unfolding and_op
  and_op-WellFormed rs rt rd = search compute_rules depth 14

  pub nand_op-WellFormed : (rs rt rd : ℕ) → Keeps (WellFormed lowest size) (nand_op rs rt rd)
  unfolding nand_op
  nand_op-WellFormed rs rt rd = search compute_rules depth 14

  pub nor_op-WellFormed : (rs rt rd : ℕ) → Keeps (WellFormed lowest size) (nor_op rs rt rd)
  unfolding nor_op
  nor_op-WellFormed rs rt rd = search compute_rules depth 14

  pub not_op-WellFormed : (rs rt rd : ℕ) → Keeps (WellFormed lowest size) (not_op rs rt rd)
  unfolding not_op
  not_op-WellFormed rs rt rd = search compute_rules depth 14

  pub or_op-WellFormed : (rs rt rd : ℕ) → Keeps (WellFormed lowest size) (or_op rs rt rd)
  unfolding or_op
  or_op-WellFormed rs rt rd = search compute_rules depth 14

  pub xnor_op-WellFormed : (rs rt rd : ℕ) → Keeps (WellFormed lowest size) (xnor_op rs rt rd)
  unfolding xnor_op
  xnor_op-WellFormed rs rt rd = search compute_rules depth 14

  pub xor_op-WellFormed : (rs rt rd : ℕ) → Keeps (WellFormed lowest size) (xor_op rs rt rd)
  unfolding xor_op
  xor_op-WellFormed rs rt rd = search compute_rules depth 14

  pub land_op-WellFormed : (rs rt rd : ℕ) → Keeps (WellFormed lowest size) (land_op rs rt rd)
  unfolding land_op
  land_op-WellFormed rs rt rd = search compute_rules depth 14

  pub lnand_op-WellFormed : (rs rt rd : ℕ) → Keeps (WellFormed lowest size) (lnand_op rs rt rd)
  unfolding lnand_op
  lnand_op-WellFormed rs rt rd = search compute_rules depth 14

  pub lnor_op-WellFormed : (rs rt rd : ℕ) → Keeps (WellFormed lowest size) (lnor_op rs rt rd)
  unfolding lnor_op
  lnor_op-WellFormed rs rt rd = search compute_rules depth 14

  pub lnot_op-WellFormed : (rs rt rd : ℕ) → Keeps (WellFormed lowest size) (lnot_op rs rt rd)
  unfolding lnot_op
  lnot_op-WellFormed rs rt rd = search compute_rules depth 14

  pub lor_op-WellFormed : (rs rt rd : ℕ) → Keeps (WellFormed lowest size) (lor_op rs rt rd)
  unfolding lor_op
  lor_op-WellFormed rs rt rd = search compute_rules depth 14

  pub lxnor_op-WellFormed : (rs rt rd : ℕ) → Keeps (WellFormed lowest size) (lxnor_op rs rt rd)
  unfolding lxnor_op
  lxnor_op-WellFormed rs rt rd = search compute_rules depth 14

  pub lxor_op-WellFormed : (rs rt rd : ℕ) → Keeps (WellFormed lowest size) (lxor_op rs rt rd)
  unfolding lxor_op
  lxor_op-WellFormed rs rt rd = search compute_rules depth 14
