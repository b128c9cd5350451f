-- ===== src/Ops/Decode/RoundTrip.antt =====
-- What the assembler encodes, the machine decodes.
use why.Base.{
  ℕ, ◌+◌, ◌*◌, ◌/◌, ◌%◌, ◌^◌, ◌<◌, ◌≡◌, refl, ap, ◌∙◌, Bool, true, false, of_bool, bit_or, arith,
  ◌==◌,
}
use why.Base.Bits.{bit_or_fields}
use native.Mathlib.Nat.{mod-eq_of_lt}
use why.Ops.Decode.{
  RFields, IFields, JFields, decode_r, decode_i, decode_j, decode_opcode, compile_r, compile_i,
  compile_j,
}

-- A field shifted into its place, above the ones that are there.
put_field :
    (k q rest : ℕ)
    → q * 2 ^ k < 2 ^ 64
    → rest < 2 ^ k
    → bit_or (q * 2 ^ k % 2 ^ 64) rest ≡ q * 2 ^ k + rest
put_field k q rest fits small =
    ap (λ n. bit_or n rest) (mod-eq_of_lt fits) ∙ bit_or_fields k q rest small

of_bool-lt : (b : Bool) → of_bool b < 2
of_bool-lt true = omega arith
of_bool-lt false = omega arith

of_bool_test : (b : Bool) (n : ℕ) → n ≡ of_bool b → (n == 1) ≡ b
of_bool_test true n e = ground arith
of_bool_test false n e = ground arith

-- The operands fit their fields of a word of the R-type.
pub record FitR (opcode : ℕ) (r : RFields) : Type 0 where
  pub opcode_fits : opcode < 2 ^ 12
  pub rt : r.rt < 2 ^ 7
  pub rs : r.rs < 2 ^ 7
  pub rd : r.rd < 2 ^ 7
  pub conditions : r.conditions < 2 ^ 4
  pub flags : r.flags < 2 ^ 2
  pub funct : r.funct < 2 ^ 12

compile_r_sum :
    (opcode : ℕ) (r : RFields)
    → FitR opcode r
    → compile_r opcode r
      ≡ opcode * 2 ^ 52
        + (r.rt * 2 ^ 45
            + (r.rs * 2 ^ 38
                + (r.rd * 2 ^ 31 + (r.conditions * 2 ^ 14 + (r.flags * 2 ^ 12 + r.funct)))))
unfolding compile_r
compile_r_sum opcode r h =
    rw
      (
        put_field 12 r.flags (r.funct) (omega (arith, h.flags)) (omega (arith, h.funct)),
        put_field 14 r.conditions (r.flags * 2 ^ 12 + r.funct) (omega (arith, h.conditions))
            (omega (arith, h.flags, h.funct)),
        put_field 31 r.rd (r.conditions * 2 ^ 14 + (r.flags * 2 ^ 12 + r.funct))
            (omega (arith, h.rd)) (omega (arith, h.conditions, h.flags, h.funct)),
        put_field 38 r.rs (r.rd * 2 ^ 31 + (r.conditions * 2 ^ 14 + (r.flags * 2 ^ 12 + r.funct)))
            (omega (arith, h.rs)) (omega (arith, h.rd, h.conditions, h.flags, h.funct)),
        put_field 45 r.rt
            (r.rs * 2 ^ 38
              + (r.rd * 2 ^ 31 + (r.conditions * 2 ^ 14 + (r.flags * 2 ^ 12 + r.funct))))
            (omega (arith, h.rt)) (omega (arith, h.rs, h.rd, h.conditions, h.flags, h.funct)),
        put_field 52 opcode
            (r.rt * 2 ^ 45
              + (r.rs * 2 ^ 38
                  + (r.rd * 2 ^ 31 + (r.conditions * 2 ^ 14 + (r.flags * 2 ^ 12 + r.funct)))))
            (omega (arith, h.opcode_fits))
            (omega (arith, h.rt, h.rs, h.rd, h.conditions, h.flags, h.funct)),
      )
      refl

-- For operands that fit their fields, the opcode and the R-type fields that the machine decodes
-- from a word are the ones that the assembler encoded.
pub decode_r-compile_r :
    (opcode : ℕ) (r : RFields)
    → FitR opcode r
    → (decode_opcode (compile_r opcode r) ≡ opcode) × (decode_r (compile_r opcode r) ≡ r)
unfolding decode_opcode decode_r
decode_r-compile_r opcode r h =
    let e = compile_r_sum opcode r h in
    (
      omega (arith, e, h.opcode_fits, h.rt, h.rs, h.rd, h.conditions, h.flags, h.funct),
      ap decode_r e ∙ decoded,
    )
  where
    word : ℕ
    word =
        opcode * 2 ^ 52
        + (r.rt * 2 ^ 45
            + (r.rs * 2 ^ 38
                + (r.rd * 2 ^ 31 + (r.conditions * 2 ^ 14 + (r.flags * 2 ^ 12 + r.funct)))))

    rt' : word / 2 ^ 45 % 2 ^ 7 ≡ r.rt
    rt' = omega (arith, h.opcode_fits, h.rt, h.rs, h.rd, h.conditions, h.flags, h.funct)

    rs' : word / 2 ^ 38 % 2 ^ 7 ≡ r.rs
    rs' = omega (arith, h.opcode_fits, h.rt, h.rs, h.rd, h.conditions, h.flags, h.funct)

    rd' : word / 2 ^ 31 % 2 ^ 7 ≡ r.rd
    rd' = omega (arith, h.opcode_fits, h.rt, h.rs, h.rd, h.conditions, h.flags, h.funct)

    conditions' : word / 2 ^ 14 % 2 ^ 4 ≡ r.conditions
    conditions' = omega (arith, h.opcode_fits, h.rt, h.rs, h.rd, h.conditions, h.flags, h.funct)

    flags' : word / 2 ^ 12 % 2 ^ 2 ≡ r.flags
    flags' = omega (arith, h.opcode_fits, h.rt, h.rs, h.rd, h.conditions, h.flags, h.funct)

    funct' : word % 2 ^ 12 ≡ r.funct
    funct' = omega (arith, h.opcode_fits, h.rt, h.rs, h.rd, h.conditions, h.flags, h.funct)

    decoded : decode_r word ≡ r
    decoded i = record {
      rs = rs' i;
      rt = rt' i;
      rd = rd' i;
      conditions = conditions' i;
      flags = flags' i;
      funct = funct' i;
    }

-- The operands fit their fields of a word of the I-type.
pub record FitI (opcode : ℕ) (r : IFields) : Type 0 where
  pub opcode_fits : opcode < 2 ^ 12
  pub conditions : r.conditions < 2 ^ 4
  pub flags : r.flags < 2 ^ 2
  pub rs : r.rs < 2 ^ 7
  pub rd : r.rd < 2 ^ 7
  pub immediate : r.immediate < 2 ^ 32

compile_i_sum :
    (opcode : ℕ) (r : IFields)
    → FitI opcode r
    → compile_i opcode r
      ≡ opcode * 2 ^ 52
        + (r.conditions * 2 ^ 48
            + (r.flags * 2 ^ 46 + (r.rs * 2 ^ 39 + (r.rd * 2 ^ 32 + r.immediate))))
unfolding compile_i
compile_i_sum opcode r h =
    rw
      (
        put_field 32 r.rd (r.immediate) (omega (arith, h.rd)) (omega (arith, h.immediate)),
        put_field 39 r.rs (r.rd * 2 ^ 32 + r.immediate) (omega (arith, h.rs))
            (omega (arith, h.rd, h.immediate)),
        put_field 46 r.flags (r.rs * 2 ^ 39 + (r.rd * 2 ^ 32 + r.immediate))
            (omega (arith, h.flags)) (omega (arith, h.rs, h.rd, h.immediate)),
        put_field 48 r.conditions
            (r.flags * 2 ^ 46 + (r.rs * 2 ^ 39 + (r.rd * 2 ^ 32 + r.immediate)))
            (omega (arith, h.conditions)) (omega (arith, h.flags, h.rs, h.rd, h.immediate)),
        put_field 52 opcode
            (r.conditions * 2 ^ 48
              + (r.flags * 2 ^ 46 + (r.rs * 2 ^ 39 + (r.rd * 2 ^ 32 + r.immediate))))
            (omega (arith, h.opcode_fits))
            (omega (arith, h.conditions, h.flags, h.rs, h.rd, h.immediate)),
      )
      refl

-- For operands that fit their fields, the opcode and the I-type fields that the machine decodes
-- from a word are the ones that the assembler encoded.
pub decode_i-compile_i :
    (opcode : ℕ) (r : IFields)
    → FitI opcode r
    → (decode_opcode (compile_i opcode r) ≡ opcode) × (decode_i (compile_i opcode r) ≡ r)
unfolding decode_opcode decode_i
decode_i-compile_i opcode r h =
    let e = compile_i_sum opcode r h in
    (
      omega (arith, e, h.opcode_fits, h.conditions, h.flags, h.rs, h.rd, h.immediate),
      ap decode_i e ∙ decoded,
    )
  where
    word : ℕ
    word =
        opcode * 2 ^ 52
        + (r.conditions * 2 ^ 48
            + (r.flags * 2 ^ 46 + (r.rs * 2 ^ 39 + (r.rd * 2 ^ 32 + r.immediate))))

    conditions' : word / 2 ^ 48 % 2 ^ 4 ≡ r.conditions
    conditions' = omega (arith, h.opcode_fits, h.conditions, h.flags, h.rs, h.rd, h.immediate)

    flags' : word / 2 ^ 46 % 2 ^ 2 ≡ r.flags
    flags' = omega (arith, h.opcode_fits, h.conditions, h.flags, h.rs, h.rd, h.immediate)

    rs' : word / 2 ^ 39 % 2 ^ 7 ≡ r.rs
    rs' = omega (arith, h.opcode_fits, h.conditions, h.flags, h.rs, h.rd, h.immediate)

    rd' : word / 2 ^ 32 % 2 ^ 7 ≡ r.rd
    rd' = omega (arith, h.opcode_fits, h.conditions, h.flags, h.rs, h.rd, h.immediate)

    immediate' : word % 2 ^ 32 ≡ r.immediate
    immediate' = omega (arith, h.opcode_fits, h.conditions, h.flags, h.rs, h.rd, h.immediate)

    decoded : decode_i word ≡ r
    decoded i = record {
      rs = rs' i;
      rd = rd' i;
      conditions = conditions' i;
      flags = flags' i;
      immediate = immediate' i;
    }

-- The operands fit their fields of a word of the J-type.
pub record FitJ (opcode : ℕ) (r : JFields) : Type 0 where
  pub opcode_fits : opcode < 2 ^ 12
  pub rs : r.rs < 2 ^ 7
  pub conditions : r.conditions < 2 ^ 4
  pub flags : r.flags < 2 ^ 2
  pub address : r.address < 2 ^ 32

compile_j_sum :
    (opcode : ℕ) (r : JFields)
    → FitJ opcode r
    → compile_j opcode r
      ≡ opcode * 2 ^ 52
        + (r.rs * 2 ^ 45
            + (of_bool r.link * 2 ^ 44 + (r.conditions * 2 ^ 34 + (r.flags * 2 ^ 32 + r.address))))
unfolding compile_j
compile_j_sum opcode r h =
    rw
      (
        put_field 32 r.flags (r.address) (omega (arith, h.flags)) (omega (arith, h.address)),
        put_field 34 r.conditions (r.flags * 2 ^ 32 + r.address) (omega (arith, h.conditions))
            (omega (arith, h.flags, h.address)),
        put_field 44 (of_bool r.link) (r.conditions * 2 ^ 34 + (r.flags * 2 ^ 32 + r.address))
            (omega (arith, of_bool-lt r.link)) (omega (arith, h.conditions, h.flags, h.address)),
        put_field 45 r.rs
            (of_bool r.link * 2 ^ 44 + (r.conditions * 2 ^ 34 + (r.flags * 2 ^ 32 + r.address)))
            (omega (arith, h.rs))
            (omega (arith, of_bool-lt r.link, h.conditions, h.flags, h.address)),
        put_field 52 opcode
            (r.rs * 2 ^ 45
              + (of_bool r.link * 2 ^ 44
                  + (r.conditions * 2 ^ 34 + (r.flags * 2 ^ 32 + r.address))))
            (omega (arith, h.opcode_fits))
            (omega (arith, h.rs, of_bool-lt r.link, h.conditions, h.flags, h.address)),
      )
      refl

-- For operands that fit their fields, the opcode and the J-type fields that the machine decodes
-- from a word are the ones that the assembler encoded.
pub decode_j-compile_j :
    (opcode : ℕ) (r : JFields)
    → FitJ opcode r
    → (decode_opcode (compile_j opcode r) ≡ opcode) × (decode_j (compile_j opcode r) ≡ r)
unfolding decode_opcode decode_j
decode_j-compile_j opcode r h =
    let e = compile_j_sum opcode r h in
    (
      omega (arith, e, h.opcode_fits, h.rs, of_bool-lt r.link, h.conditions, h.flags, h.address),
      ap decode_j e ∙ decoded,
    )
  where
    word : ℕ
    word =
        opcode * 2 ^ 52
        + (r.rs * 2 ^ 45
            + (of_bool r.link * 2 ^ 44 + (r.conditions * 2 ^ 34 + (r.flags * 2 ^ 32 + r.address))))

    rs' : word / 2 ^ 45 % 2 ^ 7 ≡ r.rs
    rs' = omega (arith, h.opcode_fits, h.rs, of_bool-lt r.link, h.conditions, h.flags, h.address)

    link' : word / 2 ^ 44 % 2 ^ 1 ≡ of_bool r.link
    link' = omega (arith, h.opcode_fits, h.rs, of_bool-lt r.link, h.conditions, h.flags, h.address)

    conditions' : word / 2 ^ 34 % 2 ^ 4 ≡ r.conditions
    conditions' =
        omega (arith, h.opcode_fits, h.rs, of_bool-lt r.link, h.conditions, h.flags, h.address)

    flags' : word / 2 ^ 32 % 2 ^ 2 ≡ r.flags
    flags' = omega (arith, h.opcode_fits, h.rs, of_bool-lt r.link, h.conditions, h.flags, h.address)

    address' : word % 2 ^ 32 ≡ r.address
    address' =
        omega (arith, h.opcode_fits, h.rs, of_bool-lt r.link, h.conditions, h.flags, h.address)

    decoded : decode_j word ≡ r
    decoded i = record {
      rs = rs' i;
      link = of_bool_test r.link _ link' i;
      conditions = conditions' i;
      flags = flags' i;
      address = address' i;
    }
