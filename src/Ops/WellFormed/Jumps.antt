-- ===== src/Ops/WellFormed/Jumps.antt =====
-- The jumps keep the invariant.
use why.Base.{ℕ, ◌^◌, ◌<◌, Bool}
use why.Machine.Ensures.{Keeps}
use why.Machine.WellFormed.{WellFormed}
use why.Ops.WellFormed.Access.{access_rules}
use why.Ops.Jumps.{j_op, jc_op, jr_op, jrc_op, jrl_op}

module _ {lowest size : ℕ} where
  pub j_op-WellFormed :
      (rs : ℕ) (link : Bool) (conditions address : ℕ)
      → address < 2 ^ 32
      → Keeps (WellFormed lowest size) (j_op rs link conditions address)
  unfolding j_op
  j_op-WellFormed rs link conditions address fits = search access_rules depth 14

  pub jc_op-WellFormed :
      (rs : ℕ) (link : Bool) (conditions address : ℕ)
      → address < 2 ^ 32
      → Keeps (WellFormed lowest size) (jc_op rs link conditions address)
  unfolding jc_op
  jc_op-WellFormed rs link conditions address fits = search access_rules depth 14

  pub jr_op-WellFormed :
      (rs rt rd conditions : ℕ) → Keeps (WellFormed lowest size) (jr_op rs rt rd conditions)
  unfolding jr_op
  jr_op-WellFormed rs rt rd conditions = search access_rules depth 14

  pub jrc_op-WellFormed : (rs rt rd : ℕ) → Keeps (WellFormed lowest size) (jrc_op rs rt rd)
  unfolding jrc_op
  jrc_op-WellFormed rs rt rd = search access_rules depth 14

  pub jrl_op-WellFormed :
      (rs rt rd conditions : ℕ) → Keeps (WellFormed lowest size) (jrl_op rs rt rd conditions)
  unfolding jrl_op
  jrl_op-WellFormed rs rt rd conditions = search access_rules depth 14
