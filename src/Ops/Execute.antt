-- ===== src/Ops/Execute.antt =====
-- Dispatch: execute, executeRType, executeIType and executeJType of wvm/src/Operations.cpp.
use why.Base.{ℕ, Bool, false, ◌||◌, List, [], ◌∷◌, ◌==◌, if◌then◌else◌}
use why.Machine.State.{Exn, M, throw}
use why.Machine.Control.{increment}
use why.Ops.Decode.{
  RFields, IFields, JFields, decode_r, decode_i, decode_j, decode_opcode, swap_endian,
}
use why.Ops.Math.{
  add_op, sub_op, mult_op, multu_op, sll_op, srl_op, sra_op, mod_op, div_op, divu_op, modu_op,
  sext32_op, sext16_op, sext8_op,
}
use why.Ops.Logic.{
  and_op, nand_op, nor_op, not_op, or_op, xnor_op, xor_op, land_op, lnand_op, lnor_op, lnot_op,
  lor_op, lxnor_op, lxor_op,
}
use why.Ops.Compare.{
  sl_op, sle_op, seq_op, slu_op, sleu_op, cmp_op, sli_op, slei_op, seqi_op, slui_op, sleui_op,
  sgi_op, sgei_op, sgeui_op, sgui_op, cmpi_op,
}
use why.Ops.Immediate.{
  addi_op, subi_op, multi_op, multui_op, slli_op, srli_op, srai_op, modi_op, divi_op, divui_op,
  modui_op, sllii_op, srlii_op, sraii_op, divii_op, divuii_op, andi_op, nandi_op, nori_op, ori_op,
  xnori_op, xori_op, lui_op, set_op,
}
use why.Ops.Jumps.{j_op, jc_op, jr_op, jrc_op, jrl_op}
use why.Ops.Loads.{
  c_op, l_op, s_op, cb_op, lb_op, sb_op, ch_op, lh_op, sh_op, cs_op, ls_op, ss_op, spush_op,
  spop_op, sspush_op, sspop_op, ms_op, trans_op, li_op, lbi_op, si_op, sbi_op, sps_op, spl_op,
  lni_op, lbni_op, jrlc_op,
}
use why.Ops.System.{
  int_op, rit_op, time_op, svtime_op, timei_op, ring_op, svring_op, ringi_op, pr_op, halt_op,
  eval_op, prc_op, prd_op, prx_op, sleep_op, prb_op, rest_op, sel_op, pgoff_op, pgon_op, setpt_op,
  svpg_op, ppush_op, ppop_op, qm_op, di_op, ei_op,
}
use why.Ops.Io.{io_op}

-- A `switch` over a number whose cases all return.
unfoldable pub switch {ℓ} : {A : Type ℓ} → List (ℕ × A) → A → ℕ → A
switch [] default n = default
switch ((k, a) ∷ cases) default n = if n == k then a else switch cases default n

-- `set.count(opcode) == 1`.
unfoldable pub contains : List ℕ → ℕ → Bool
contains [] n = false
contains (k ∷ ks) n = (n == k) || contains ks n

unfoldable pub r_set : List ℕ
r_set = 1 ∷ 2 ∷ 14 ∷ 17 ∷ 18 ∷ 48 ∷ 50 ∷ 56 ∷ 61 ∷ 65 ∷ 31 ∷ 66 ∷ 68 ∷ []

unfoldable pub i_set : List ℕ
i_set =
    3 ∷ 4 ∷ 5 ∷ 24 ∷ 34 ∷ 35 ∷ 36 ∷ 30 ∷ 52 ∷ 53 ∷ 54 ∷ 55 ∷ 6 ∷ 7 ∷ 8 ∷ 9 ∷ 10 ∷ 11 ∷ 13 ∷ 25 ∷ 26
    ∷ 43 ∷ 27 ∷ 28 ∷ 29 ∷ 41 ∷ 42 ∷ 19 ∷ 20 ∷ 21 ∷ 37 ∷ 38 ∷ 39 ∷ 40 ∷ 32 ∷ 33 ∷ 49 ∷ 51 ∷ 57 ∷ 58
    ∷ 59 ∷ 60 ∷ 67 ∷ 62 ∷ 63 ∷ 64 ∷ 22 ∷ 23 ∷ []

unfoldable pub j_set : List ℕ
j_set = 15 ∷ 16 ∷ []

-- The cases of executeRType, by opcode; the key is the function code.
abbrev RCases : Type 0
RCases = List (ℕ × M (Unit {0}))

unfoldable pub r_math : ℕ → ℕ → ℕ → ℕ → RCases
r_math rs rt rd conditions =
    (0, add_op rs rt rd)
    ∷ (1, sub_op rs rt rd)
    ∷ (2, mult_op rs rt rd)
    ∷ (5, multu_op rs rt rd)
    ∷ (6, sll_op rs rt rd)
    ∷ (7, srl_op rs rt rd)
    ∷ (8, sra_op rs rt rd)
    ∷ (9, mod_op rs rt rd)
    ∷ (10, div_op rs rt rd)
    ∷ (11, divu_op rs rt rd)
    ∷ (12, modu_op rs rt rd)
    ∷ (13, sext32_op rs rt rd)
    ∷ (14, sext16_op rs rt rd)
    ∷ (15, sext8_op rs rt rd)
    ∷ []

unfoldable pub r_logic : ℕ → ℕ → ℕ → ℕ → RCases
r_logic rs rt rd conditions =
    (0, and_op rs rt rd)
    ∷ (1, nand_op rs rt rd)
    ∷ (2, nor_op rs rt rd)
    ∷ (3, not_op rs rt rd)
    ∷ (4, or_op rs rt rd)
    ∷ (5, xnor_op rs rt rd)
    ∷ (6, xor_op rs rt rd)
    ∷ (8, land_op rs rt rd)
    ∷ (9, lnand_op rs rt rd)
    ∷ (10, lnor_op rs rt rd)
    ∷ (11, lnot_op rs rt rd)
    ∷ (12, lor_op rs rt rd)
    ∷ (13, lxnor_op rs rt rd)
    ∷ (14, lxor_op rs rt rd)
    ∷ []

unfoldable pub r_comp : ℕ → ℕ → ℕ → ℕ → RCases
r_comp rs rt rd conditions =
    (0, sl_op rs rt rd)
    ∷ (1, sle_op rs rt rd)
    ∷ (2, seq_op rs rt rd)
    ∷ (3, slu_op rs rt rd)
    ∷ (4, sleu_op rs rt rd)
    ∷ (5, cmp_op rs rt rd)
    ∷ []

unfoldable pub r_jump : ℕ → ℕ → ℕ → ℕ → RCases
r_jump rs rt rd conditions =
    (0, jr_op rs rt rd conditions)
    ∷ (1, jrc_op rs rt rd)
    ∷ (2, jrl_op rs rt rd conditions)
    ∷ (3, jrlc_op rs rt rd)
    ∷ []

unfoldable pub r_mem : ℕ → ℕ → ℕ → ℕ → RCases
r_mem rs rt rd conditions =
    (0, c_op rs rt rd)
    ∷ (1, l_op rs rt rd)
    ∷ (2, s_op rs rt rd)
    ∷ (3, cb_op rs rt rd)
    ∷ (4, lb_op rs rt rd)
    ∷ (5, sb_op rs rt rd)
    ∷ (6, spush_op rs rt rd)
    ∷ (7, spop_op rs rt rd)
    ∷ (8, ch_op rs rt rd)
    ∷ (9, lh_op rs rt rd)
    ∷ (10, sh_op rs rt rd)
    ∷ (11, ms_op rs rt rd)
    ∷ (12, cs_op rs rt rd)
    ∷ (13, ls_op rs rt rd)
    ∷ (14, ss_op rs rt rd)
    ∷ []

unfoldable pub r_ext : ℕ → ℕ → ℕ → ℕ → RCases
r_ext rs rt rd conditions =
    (1, pr_op rs rt rd)
    ∷ (2, halt_op rs rt rd)
    ∷ (3, eval_op rs rt rd)
    ∷ (4, prc_op rs rt rd)
    ∷ (5, prd_op rs rt rd)
    ∷ (6, prx_op rs rt rd)
    ∷ (7, sleep_op rs rt rd)
    ∷ (8, prb_op rs rt rd)
    ∷ (9, rest_op rs rt rd)
    ∷ (10, io_op rs rt rd)
    ∷ []

unfoldable pub r_time : ℕ → ℕ → ℕ → ℕ → RCases
r_time rs rt rd conditions = (0, time_op rs rt rd) ∷ (1, svtime_op rs rt rd) ∷ []

unfoldable pub r_ring : ℕ → ℕ → ℕ → ℕ → RCases
r_ring rs rt rd conditions = (0, ring_op rs rt rd) ∷ (1, svring_op rs rt rd) ∷ []

unfoldable pub r_page : ℕ → ℕ → ℕ → ℕ → RCases
r_page rs rt rd conditions =
    (0, pgoff_op rs rt rd)
    ∷ (1, pgon_op rs rt rd)
    ∷ (2, setpt_op rs rt rd)
    ∷ (3, svpg_op rs rt rd)
    ∷ (4, ppush_op rs rt rd)
    ∷ (5, ppop_op rs rt rd)
    ∷ []

unfoldable pub r_query : ℕ → ℕ → ℕ → ℕ → RCases
r_query rs rt rd conditions = (0, qm_op rs rt rd) ∷ []

unfoldable pub r_interrupts : ℕ → ℕ → ℕ → ℕ → RCases
r_interrupts rs rt rd conditions = (0, di_op rs rt rd) ∷ (1, ei_op rs rt rd) ∷ []

unfoldable pub execute_r_type : ℕ → RFields → M (Unit {0})
unfolding switch r_math r_logic r_comp r_jump r_mem r_ext r_time r_ring r_page r_query r_interrupts
execute_r_type opcode r =
    switch
      ((1, switch (r_math r.rs r.rt r.rd r.conditions) unknown r.funct)
        ∷ (2, switch (r_logic r.rs r.rt r.rd r.conditions) unknown r.funct)
        ∷ (14, switch (r_comp r.rs r.rt r.rd r.conditions) unknown r.funct)
        ∷ (17, switch (r_jump r.rs r.rt r.rd r.conditions) unknown r.funct)
        ∷ (18, switch (r_mem r.rs r.rt r.rd r.conditions) unknown r.funct)
        ∷ (31, switch (r_ext r.rs r.rt r.rd r.conditions) unknown r.funct)
        ∷ (48, switch (r_time r.rs r.rt r.rd r.conditions) unknown r.funct)
        ∷ (50, switch (r_ring r.rs r.rt r.rd r.conditions) unknown r.funct)
        ∷ (56, sel_op r.rs r.rt r.rd r.conditions)
        ∷ (61, switch (r_page r.rs r.rt r.rd r.conditions) unknown r.funct)
        ∷ (65, switch (r_query r.rs r.rt r.rd r.conditions) unknown r.funct)
        ∷ (66, switch (r_interrupts r.rs r.rt r.rd r.conditions) unknown r.funct)
        ∷ (68, trans_op r.rs r.rt r.rd)
        ∷ [])
      unknown opcode
  where
    unknown : M (Unit {0})
    unknown = throw Exn.unknown_r_type

unfoldable pub i_cases : ℕ → ℕ → ℕ → RCases
i_cases rs rd immediate =
    (3, addi_op rs rd immediate)
    ∷ (4, subi_op rs rd immediate)
    ∷ (5, multi_op rs rd immediate)
    ∷ (24, multui_op rs rd immediate)
    ∷ (34, slli_op rs rd immediate)
    ∷ (35, srli_op rs rd immediate)
    ∷ (36, srai_op rs rd immediate)
    ∷ (30, modi_op rs rd immediate)
    ∷ (52, divi_op rs rd immediate)
    ∷ (53, divui_op rs rd immediate)
    ∷ (67, modui_op rs rd immediate)
    ∷ (54, divii_op rs rd immediate)
    ∷ (55, divuii_op rs rd immediate)
    ∷ (6, andi_op rs rd immediate)
    ∷ (7, nandi_op rs rd immediate)
    ∷ (8, nori_op rs rd immediate)
    ∷ (9, ori_op rs rd immediate)
    ∷ (10, xnori_op rs rd immediate)
    ∷ (11, xori_op rs rd immediate)
    ∷ (13, lui_op rs rd immediate)
    ∷ (25, sli_op rs rd immediate)
    ∷ (26, slei_op rs rd immediate)
    ∷ (27, seqi_op rs rd immediate)
    ∷ (28, slui_op rs rd immediate)
    ∷ (29, sleui_op rs rd immediate)
    ∷ (41, sgi_op rs rd immediate)
    ∷ (42, sgei_op rs rd immediate)
    ∷ (59, sgeui_op rs rd immediate)
    ∷ (60, sgui_op rs rd immediate)
    ∷ (19, li_op rs rd immediate)
    ∷ (20, si_op rs rd immediate)
    ∷ (21, set_op rs rd immediate)
    ∷ (22, sps_op rs rd immediate)
    ∷ (23, spl_op rs rd immediate)
    ∷ (37, lbi_op rs rd immediate)
    ∷ (38, sbi_op rs rd immediate)
    ∷ (39, lni_op rs rd immediate)
    ∷ (40, lbni_op rs rd immediate)
    ∷ (32, int_op rs rd immediate)
    ∷ (33, rit_op rs rd immediate)
    ∷ (49, timei_op rs rd immediate)
    ∷ (51, ringi_op rs rd immediate)
    ∷ (43, cmpi_op rs rd immediate)
    ∷ (57, sspush_op rs rd immediate)
    ∷ (58, sspop_op rs rd immediate)
    ∷ (62, sllii_op rs rd immediate)
    ∷ (63, srlii_op rs rd immediate)
    ∷ (64, sraii_op rs rd immediate)
    ∷ []

unfoldable pub execute_i_type : ℕ → IFields → M (Unit {0})
unfolding switch i_cases
execute_i_type opcode r = switch (i_cases r.rs r.rd r.immediate) (throw Exn.unknown_i_type) opcode

unfoldable pub execute_j_type : ℕ → JFields → M (Unit {0})
unfolding switch
execute_j_type opcode r =
    switch
      ((15, j_op r.rs r.link r.conditions r.address)
        ∷ (16, jc_op r.rs r.link r.conditions r.address)
        ∷ [])
      (throw Exn.unknown_j_type) opcode

-- The body of `execute` after the bytes are swapped.
unfoldable pub execute_decoded : ℕ → ℕ → M (Unit {0})
unfolding r_set i_set j_set contains execute_r_type execute_i_type execute_j_type decode_r decode_i
    decode_j
execute_decoded opcode instruction =
    if opcode == 0
    then increment
    else if contains r_set opcode
    then execute_r_type opcode (decode_r instruction)
    else if contains i_set opcode
    then execute_i_type opcode (decode_i instruction)
    else if contains j_set opcode
    then execute_j_type opcode (decode_j instruction)
    else throw Exn.unknown_opcode

unfoldable pub execute : ℕ → M (Unit {0})
unfolding swap_endian decode_opcode execute_decoded
execute word =
    let instruction = swap_endian word in execute_decoded (decode_opcode instruction) instruction
