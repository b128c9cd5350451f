-- ===== src/Ops/WellFormed/Loads.antt =====
-- The memory instructions keep the invariant.
use why.Base.{ℕ, ◌^◌, ◌<◌}
use why.Machine.Ensures.{Keeps}
use why.Machine.WellFormed.{WellFormed}
use why.Ops.Loads.{
  c_op, l_op, s_op, cb_op, lb_op, sb_op, ch_op, lh_op, sh_op, cs_op, ls_op, ss_op, spush_op,
  spop_op, sspush_op, sspop_op, ms_op, trans_op, li_op, lbi_op, si_op, sbi_op, sps_op, spl_op,
  lni_op, lbni_op, jrlc_op,
}
use why.Ops.WellFormed.Transfers.{transfer_rules}

module _ {lowest size : ℕ} where
  pub c_op-WellFormed : (rs rt rd : ℕ) → Keeps (WellFormed lowest size) (c_op rs rt rd)
  unfolding c_op
  c_op-WellFormed rs rt rd = search transfer_rules depth 14

  pub l_op-WellFormed : (rs rt rd : ℕ) → Keeps (WellFormed lowest size) (l_op rs rt rd)
  unfolding l_op
  l_op-WellFormed rs rt rd = search transfer_rules depth 14

  pub s_op-WellFormed : (rs rt rd : ℕ) → Keeps (WellFormed lowest size) (s_op rs rt rd)
  unfolding s_op
  s_op-WellFormed rs rt rd = search transfer_rules depth 14

  pub cb_op-WellFormed : (rs rt rd : ℕ) → Keeps (WellFormed lowest size) (cb_op rs rt rd)
  unfolding cb_op
  cb_op-WellFormed rs rt rd = search transfer_rules depth 14

  pub lb_op-WellFormed : (rs rt rd : ℕ) → Keeps (WellFormed lowest size) (lb_op rs rt rd)
  unfolding lb_op
  lb_op-WellFormed rs rt rd = search transfer_rules depth 14

  pub sb_op-WellFormed : (rs rt rd : ℕ) → Keeps (WellFormed lowest size) (sb_op rs rt rd)
  unfolding sb_op
  sb_op-WellFormed rs rt rd = search transfer_rules depth 14

  pub ch_op-WellFormed : (rs rt rd : ℕ) → Keeps (WellFormed lowest size) (ch_op rs rt rd)
  unfolding ch_op
  ch_op-WellFormed rs rt rd = search transfer_rules depth 14

  pub lh_op-WellFormed : (rs rt rd : ℕ) → Keeps (WellFormed lowest size) (lh_op rs rt rd)
  unfolding lh_op
  lh_op-WellFormed rs rt rd = search transfer_rules depth 14

  pub sh_op-WellFormed : (rs rt rd : ℕ) → Keeps (WellFormed lowest size) (sh_op rs rt rd)
  unfolding sh_op
  sh_op-WellFormed rs rt rd = search transfer_rules depth 14

  pub cs_op-WellFormed : (rs rt rd : ℕ) → Keeps (WellFormed lowest size) (cs_op rs rt rd)
  unfolding cs_op
  cs_op-WellFormed rs rt rd = search transfer_rules depth 14

  pub ls_op-WellFormed : (rs rt rd : ℕ) → Keeps (WellFormed lowest size) (ls_op rs rt rd)
  unfolding ls_op
  ls_op-WellFormed rs rt rd = search transfer_rules depth 14

  pub ss_op-WellFormed : (rs rt rd : ℕ) → Keeps (WellFormed lowest size) (ss_op rs rt rd)
  unfolding ss_op
  ss_op-WellFormed rs rt rd = search transfer_rules depth 14

  pub spush_op-WellFormed : (rs rt rd : ℕ) → Keeps (WellFormed lowest size) (spush_op rs rt rd)
  unfolding spush_op
  spush_op-WellFormed rs rt rd = search transfer_rules depth 14

  pub spop_op-WellFormed : (rs rt rd : ℕ) → Keeps (WellFormed lowest size) (spop_op rs rt rd)
  unfolding spop_op
  spop_op-WellFormed rs rt rd = search transfer_rules depth 14

  pub sspush_op-WellFormed :
      (rs rd immediate : ℕ)
      → immediate < 2 ^ 32
      → Keeps (WellFormed lowest size) (sspush_op rs rd immediate)
  unfolding sspush_op
  sspush_op-WellFormed rs rd immediate fits = search transfer_rules depth 14

  pub sspop_op-WellFormed :
      (rs rd immediate : ℕ)
      → immediate < 2 ^ 32
      → Keeps (WellFormed lowest size) (sspop_op rs rd immediate)
  unfolding sspop_op
  sspop_op-WellFormed rs rd immediate fits = search transfer_rules depth 14

  pub ms_op-WellFormed : (rs rt rd : ℕ) → Keeps (WellFormed lowest size) (ms_op rs rt rd)
  unfolding ms_op
  ms_op-WellFormed rs rt rd = search transfer_rules depth 14

  pub trans_op-WellFormed : (rs rt rd : ℕ) → Keeps (WellFormed lowest size) (trans_op rs rt rd)
  unfolding trans_op
  trans_op-WellFormed rs rt rd = search transfer_rules depth 14

  pub li_op-WellFormed :
      (rs rd immediate : ℕ)
      → immediate < 2 ^ 32
      → Keeps (WellFormed lowest size) (li_op rs rd immediate)
  unfolding li_op
  li_op-WellFormed rs rd immediate fits = search transfer_rules depth 14

  pub lbi_op-WellFormed :
      (rs rd immediate : ℕ)
      → immediate < 2 ^ 32
      → Keeps (WellFormed lowest size) (lbi_op rs rd immediate)
  unfolding lbi_op
  lbi_op-WellFormed rs rd immediate fits = search transfer_rules depth 14

  pub si_op-WellFormed :
      (rs rd immediate : ℕ)
      → immediate < 2 ^ 32
      → Keeps (WellFormed lowest size) (si_op rs rd immediate)
  unfolding si_op
  si_op-WellFormed rs rd immediate fits = search transfer_rules depth 14

  pub sbi_op-WellFormed :
      (rs rd immediate : ℕ)
      → immediate < 2 ^ 32
      → Keeps (WellFormed lowest size) (sbi_op rs rd immediate)
  unfolding sbi_op
  sbi_op-WellFormed rs rd immediate fits = search transfer_rules depth 14

  pub sps_op-WellFormed :
      (rs rd immediate : ℕ)
      → immediate < 2 ^ 32
      → Keeps (WellFormed lowest size) (sps_op rs rd immediate)
  unfolding sps_op
  sps_op-WellFormed rs rd immediate fits = search transfer_rules depth 14

  pub spl_op-WellFormed :
      (rs rd immediate : ℕ)
      → immediate < 2 ^ 32
      → Keeps (WellFormed lowest size) (spl_op rs rd immediate)
  unfolding spl_op
  spl_op-WellFormed rs rd immediate fits = search transfer_rules depth 14

  pub lni_op-WellFormed :
      (rs rd immediate : ℕ)
      → immediate < 2 ^ 32
      → Keeps (WellFormed lowest size) (lni_op rs rd immediate)
  unfolding lni_op
  lni_op-WellFormed rs rd immediate fits = search transfer_rules depth 14

  pub lbni_op-WellFormed :
      (rs rd immediate : ℕ)
      → immediate < 2 ^ 32
      → Keeps (WellFormed lowest size) (lbni_op rs rd immediate)
  unfolding lbni_op
  lbni_op-WellFormed rs rd immediate fits = search transfer_rules depth 14

  pub jrlc_op-WellFormed : (rs rt rd : ℕ) → Keeps (WellFormed lowest size) (jrlc_op rs rt rd)
  unfolding jrlc_op
  jrlc_op-WellFormed rs rt rd = search transfer_rules depth 14
