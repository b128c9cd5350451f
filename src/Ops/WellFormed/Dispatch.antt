-- ===== src/Ops/WellFormed/Dispatch.antt =====
-- Dispatch keeps the invariant, whatever the instruction word.
use why.Base.{ℕ, ◌^◌, ◌<◌, arith, ◌==◌}
use why.Machine.State.{Exn, throw}
use why.Machine.Ensures.{Keeps, Ensures-if, Ensures-throw}
use why.Machine.WellFormed.{WellFormed}
use why.Machine.WellFormed.Actions.{increment-WellFormed}
use why.Ops.WellFormed.Math.{
  add_op-WellFormed, div_op-WellFormed, divu_op-WellFormed, mod_op-WellFormed, modu_op-WellFormed,
  mult_op-WellFormed, multu_op-WellFormed, sext16_op-WellFormed, sext32_op-WellFormed,
  sext8_op-WellFormed, sll_op-WellFormed, sra_op-WellFormed, srl_op-WellFormed, sub_op-WellFormed,
}
use why.Ops.WellFormed.Logic.{
  and_op-WellFormed, land_op-WellFormed, lnand_op-WellFormed, lnor_op-WellFormed,
  lnot_op-WellFormed, lor_op-WellFormed, lxnor_op-WellFormed, lxor_op-WellFormed,
  nand_op-WellFormed, nor_op-WellFormed, not_op-WellFormed, or_op-WellFormed, xnor_op-WellFormed,
  xor_op-WellFormed,
}
use why.Ops.WellFormed.Compare.{
  cmp_op-WellFormed, cmpi_op-WellFormed, seq_op-WellFormed, seqi_op-WellFormed, sgei_op-WellFormed,
  sgeui_op-WellFormed, sgi_op-WellFormed, sgui_op-WellFormed, sl_op-WellFormed, sle_op-WellFormed,
  slei_op-WellFormed, sleu_op-WellFormed, sleui_op-WellFormed, sli_op-WellFormed, slu_op-WellFormed,
  slui_op-WellFormed,
}
use why.Ops.WellFormed.Immediate.{
  addi_op-WellFormed, andi_op-WellFormed, divi_op-WellFormed, divii_op-WellFormed,
  divui_op-WellFormed, divuii_op-WellFormed, lui_op-WellFormed, modi_op-WellFormed,
  modui_op-WellFormed, multi_op-WellFormed, multui_op-WellFormed, nandi_op-WellFormed,
  nori_op-WellFormed, ori_op-WellFormed, set_op-WellFormed, slli_op-WellFormed, sllii_op-WellFormed,
  srai_op-WellFormed, sraii_op-WellFormed, srli_op-WellFormed, srlii_op-WellFormed,
  subi_op-WellFormed, xnori_op-WellFormed, xori_op-WellFormed,
}
use why.Ops.WellFormed.Jumps.{
  j_op-WellFormed, jc_op-WellFormed, jr_op-WellFormed, jrc_op-WellFormed, jrl_op-WellFormed,
}
use why.Ops.WellFormed.Loads.{
  c_op-WellFormed, cb_op-WellFormed, ch_op-WellFormed, cs_op-WellFormed, jrlc_op-WellFormed,
  l_op-WellFormed, lb_op-WellFormed, lbi_op-WellFormed, lbni_op-WellFormed, lh_op-WellFormed,
  li_op-WellFormed, lni_op-WellFormed, ls_op-WellFormed, ms_op-WellFormed, s_op-WellFormed,
  sb_op-WellFormed, sbi_op-WellFormed, sh_op-WellFormed, si_op-WellFormed, spl_op-WellFormed,
  spop_op-WellFormed, sps_op-WellFormed, spush_op-WellFormed, ss_op-WellFormed, sspop_op-WellFormed,
  sspush_op-WellFormed, trans_op-WellFormed,
}
use why.Ops.WellFormed.System.{
  di_op-WellFormed, ei_op-WellFormed, eval_op-WellFormed, halt_op-WellFormed, int_op-WellFormed,
  pgoff_op-WellFormed, pgon_op-WellFormed, ppop_op-WellFormed, ppush_op-WellFormed,
  pr_op-WellFormed, prb_op-WellFormed, prc_op-WellFormed, prd_op-WellFormed, prx_op-WellFormed,
  qm_op-WellFormed, rest_op-WellFormed, ring_op-WellFormed, ringi_op-WellFormed, rit_op-WellFormed,
  sel_op-WellFormed, setpt_op-WellFormed, sleep_op-WellFormed, svpg_op-WellFormed,
  svring_op-WellFormed, svtime_op-WellFormed, time_op-WellFormed, timei_op-WellFormed,
}
use why.Ops.WellFormed.Io.{io_op-WellFormed}
use why.Ops.Decode.{
  RFields, IFields, JFields, decode_i, decode_j, decode_r, decode_opcode, swap_endian,
}
use why.Ops.Execute.{
  switch, contains, r_set, i_set, j_set, r_math, r_logic, r_comp, r_jump, r_mem, r_ext, r_time,
  r_ring, r_page, r_query, r_interrupts, i_cases, execute_r_type, execute_i_type, execute_j_type,
  execute_decoded, execute,
}

module _ {lowest size : ℕ} where
  r_math-WellFormed :
      (rs rt rd conditions funct : ℕ)
      → Keeps
          (WellFormed lowest size)
          (switch (r_math rs rt rd conditions) (throw Exn.unknown_r_type) funct)
  unfolding switch r_math
  r_math-WellFormed rs rt rd conditions funct =
      search
        (
          Ensures-if, Ensures-throw, add_op-WellFormed, sub_op-WellFormed, mult_op-WellFormed,
          multu_op-WellFormed, sll_op-WellFormed, srl_op-WellFormed, sra_op-WellFormed,
          mod_op-WellFormed, div_op-WellFormed, divu_op-WellFormed, modu_op-WellFormed,
          sext32_op-WellFormed, sext16_op-WellFormed, sext8_op-WellFormed,
        )
        depth 18

  r_logic-WellFormed :
      (rs rt rd conditions funct : ℕ)
      → Keeps
          (WellFormed lowest size)
          (switch (r_logic rs rt rd conditions) (throw Exn.unknown_r_type) funct)
  unfolding switch r_logic
  r_logic-WellFormed rs rt rd conditions funct =
      search
        (
          Ensures-if, Ensures-throw, and_op-WellFormed, nand_op-WellFormed, nor_op-WellFormed,
          not_op-WellFormed, or_op-WellFormed, xnor_op-WellFormed, xor_op-WellFormed,
          land_op-WellFormed, lnand_op-WellFormed, lnor_op-WellFormed, lnot_op-WellFormed,
          lor_op-WellFormed, lxnor_op-WellFormed, lxor_op-WellFormed,
        )
        depth 18

  r_comp-WellFormed :
      (rs rt rd conditions funct : ℕ)
      → Keeps
          (WellFormed lowest size)
          (switch (r_comp rs rt rd conditions) (throw Exn.unknown_r_type) funct)
  unfolding switch r_comp
  r_comp-WellFormed rs rt rd conditions funct =
      search
        (
          Ensures-if, Ensures-throw, sl_op-WellFormed, sle_op-WellFormed, seq_op-WellFormed,
          slu_op-WellFormed, sleu_op-WellFormed, cmp_op-WellFormed,
        )
        depth 10

  r_jump-WellFormed :
      (rs rt rd conditions funct : ℕ)
      → Keeps
          (WellFormed lowest size)
          (switch (r_jump rs rt rd conditions) (throw Exn.unknown_r_type) funct)
  unfolding switch r_jump
  r_jump-WellFormed rs rt rd conditions funct =
      search
        (
          Ensures-if, Ensures-throw, jr_op-WellFormed, jrc_op-WellFormed, jrl_op-WellFormed,
          jrlc_op-WellFormed,
        )
        depth 8

  r_mem-WellFormed :
      (rs rt rd conditions funct : ℕ)
      → Keeps
          (WellFormed lowest size)
          (switch (r_mem rs rt rd conditions) (throw Exn.unknown_r_type) funct)
  unfolding switch r_mem
  r_mem-WellFormed rs rt rd conditions funct =
      search
        (
          Ensures-if, Ensures-throw, c_op-WellFormed, l_op-WellFormed, s_op-WellFormed,
          cb_op-WellFormed, lb_op-WellFormed, sb_op-WellFormed, spush_op-WellFormed,
          spop_op-WellFormed, ch_op-WellFormed, lh_op-WellFormed, sh_op-WellFormed,
          ms_op-WellFormed, cs_op-WellFormed, ls_op-WellFormed, ss_op-WellFormed,
        )
        depth 19

  r_ext-WellFormed :
      (rs rt rd conditions funct : ℕ)
      → Keeps
          (WellFormed lowest size)
          (switch (r_ext rs rt rd conditions) (throw Exn.unknown_r_type) funct)
  unfolding switch r_ext
  r_ext-WellFormed rs rt rd conditions funct =
      search
        (
          Ensures-if, Ensures-throw, pr_op-WellFormed, halt_op-WellFormed, eval_op-WellFormed,
          prc_op-WellFormed, prd_op-WellFormed, prx_op-WellFormed, sleep_op-WellFormed,
          prb_op-WellFormed, rest_op-WellFormed, io_op-WellFormed,
        )
        depth 14

  r_time-WellFormed :
      (rs rt rd conditions funct : ℕ)
      → Keeps
          (WellFormed lowest size)
          (switch (r_time rs rt rd conditions) (throw Exn.unknown_r_type) funct)
  unfolding switch r_time
  r_time-WellFormed rs rt rd conditions funct =
      search (Ensures-if, Ensures-throw, time_op-WellFormed, svtime_op-WellFormed) depth 6

  r_ring-WellFormed :
      (rs rt rd conditions funct : ℕ)
      → Keeps
          (WellFormed lowest size)
          (switch (r_ring rs rt rd conditions) (throw Exn.unknown_r_type) funct)
  unfolding switch r_ring
  r_ring-WellFormed rs rt rd conditions funct =
      search (Ensures-if, Ensures-throw, ring_op-WellFormed, svring_op-WellFormed) depth 6

  r_page-WellFormed :
      (rs rt rd conditions funct : ℕ)
      → Keeps
          (WellFormed lowest size)
          (switch (r_page rs rt rd conditions) (throw Exn.unknown_r_type) funct)
  unfolding switch r_page
  r_page-WellFormed rs rt rd conditions funct =
      search
        (
          Ensures-if, Ensures-throw, pgoff_op-WellFormed, pgon_op-WellFormed, setpt_op-WellFormed,
          svpg_op-WellFormed, ppush_op-WellFormed, ppop_op-WellFormed,
        )
        depth 10

  r_query-WellFormed :
      (rs rt rd conditions funct : ℕ)
      → Keeps
          (WellFormed lowest size)
          (switch (r_query rs rt rd conditions) (throw Exn.unknown_r_type) funct)
  unfolding switch r_query
  r_query-WellFormed rs rt rd conditions funct =
      search (Ensures-if, Ensures-throw, qm_op-WellFormed) depth 5

  r_interrupts-WellFormed :
      (rs rt rd conditions funct : ℕ)
      → Keeps
          (WellFormed lowest size)
          (switch (r_interrupts rs rt rd conditions) (throw Exn.unknown_r_type) funct)
  unfolding switch r_interrupts
  r_interrupts-WellFormed rs rt rd conditions funct =
      search (Ensures-if, Ensures-throw, di_op-WellFormed, ei_op-WellFormed) depth 6

  execute_r_type-WellFormed :
      (opcode : ℕ) (r : RFields) → Keeps (WellFormed lowest size) (execute_r_type opcode r)
  unfolding switch execute_r_type
  execute_r_type-WellFormed opcode r =
      search
        (
          Ensures-if, Ensures-throw, r_math-WellFormed, r_logic-WellFormed, r_comp-WellFormed,
          r_jump-WellFormed, r_mem-WellFormed, r_ext-WellFormed, r_time-WellFormed,
          r_ring-WellFormed, r_page-WellFormed, r_query-WellFormed, r_interrupts-WellFormed,
          sel_op-WellFormed, trans_op-WellFormed,
        )
        depth 18

  execute_i_type-WellFormed :
      (opcode : ℕ) (r : IFields)
      → r.immediate < 2 ^ 32
      → Keeps (WellFormed lowest size) (execute_i_type opcode r)
  unfolding switch i_cases execute_i_type
  execute_i_type-WellFormed opcode r fits =
      search
        (
          Ensures-if, Ensures-throw, addi_op-WellFormed, subi_op-WellFormed, multi_op-WellFormed,
          multui_op-WellFormed, slli_op-WellFormed, srli_op-WellFormed, srai_op-WellFormed,
          modi_op-WellFormed, divi_op-WellFormed, divui_op-WellFormed, modui_op-WellFormed,
          divii_op-WellFormed, divuii_op-WellFormed, andi_op-WellFormed, nandi_op-WellFormed,
          nori_op-WellFormed, ori_op-WellFormed, xnori_op-WellFormed, xori_op-WellFormed,
          lui_op-WellFormed, sli_op-WellFormed, slei_op-WellFormed, seqi_op-WellFormed,
          slui_op-WellFormed, sleui_op-WellFormed, sgi_op-WellFormed, sgei_op-WellFormed,
          sgeui_op-WellFormed, sgui_op-WellFormed, li_op-WellFormed, si_op-WellFormed,
          set_op-WellFormed, sps_op-WellFormed, spl_op-WellFormed, lbi_op-WellFormed,
          sbi_op-WellFormed, lni_op-WellFormed, lbni_op-WellFormed, int_op-WellFormed,
          rit_op-WellFormed, timei_op-WellFormed, ringi_op-WellFormed, cmpi_op-WellFormed,
          sspush_op-WellFormed, sspop_op-WellFormed, sllii_op-WellFormed, srlii_op-WellFormed,
          sraii_op-WellFormed,
        )
        depth 54 fits 5000

  execute_j_type-WellFormed :
      (opcode : ℕ) (r : JFields)
      → r.address < 2 ^ 32
      → Keeps (WellFormed lowest size) (execute_j_type opcode r)
  unfolding switch execute_j_type
  execute_j_type-WellFormed opcode r fits =
      search (Ensures-if, Ensures-throw, j_op-WellFormed, jc_op-WellFormed) depth 8

  execute_decoded-WellFormed :
      (opcode instruction : ℕ) → Keeps (WellFormed lowest size) (execute_decoded opcode instruction)
  unfolding execute_decoded decode_i decode_j
  execute_decoded-WellFormed opcode instruction =
      Ensures-if (opcode == 0) _ _ (λ _. increment-WellFormed)
        λ _.
          Ensures-if (contains r_set opcode) _ _
            (λ _. execute_r_type-WellFormed opcode (decode_r instruction))
            λ _.
              Ensures-if (contains i_set opcode) _ _
                (λ _. execute_i_type-WellFormed opcode (decode_i instruction) (omega arith))
                λ _.
                  Ensures-if (contains j_set opcode) _ _
                    (λ _. execute_j_type-WellFormed opcode (decode_j instruction) (omega arith))
                    (λ _. Ensures-throw _)

  -- From a well-formed machine, every instruction word leaves a well-formed machine, whether it returns
  -- or throws: all values fit their types, the size of the memory is the same, and the ring is not below
  -- any ring that the machine's ring was not below.
  pub execute-WellFormed : (word : ℕ) → Keeps (WellFormed lowest size) (execute word)
  unfolding execute
  execute-WellFormed word =
      execute_decoded-WellFormed (decode_opcode (swap_endian word)) (swap_endian word)
