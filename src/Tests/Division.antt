-- ===== src/Tests/Division.antt =====
-- The division instructions at -7 and 2.
use why.Base.{ℕ, ◌+◌, ◌-◌, ◌*◌, ◌^◌, ◌<◌, ◌≡◌, ◌⊎◌, refl, is_negative, arith, ◌==◌, if◌then◌else◌}
use why.Machine.State.{Vm}
use why.Ops.Alu.{magnitude, differs}
use why.Ops.Math.{div_op, mod_op}
use why.Ops.Math.Division.{stored, div_op-mod_op}
use why.Tests.{machine}

abbrev operands : Vm
operands = record machine { registers = λ r. if r == 7 then 2 ^ 64 - 7 else 2 }

div_op-mod_op_example :
    (q : ℕ) × (r : ℕ) × (div_op 7 8 9 operands ≡ stored 9 q operands)
    × (mod_op 7 8 9 operands ≡ stored 9 r operands)
    × (magnitude (2 ^ 64 - 7) ≡ magnitude 2 * magnitude q + magnitude r)
    × (magnitude r < magnitude 2)
    × ((q ≡ 0) ⊎ (is_negative q ≡ differs (is_negative (2 ^ 64 - 7)) (is_negative 2)))
    × ((r ≡ 0) ⊎ (is_negative r ≡ is_negative (2 ^ 64 - 7)))
div_op-mod_op_example = div_op-mod_op operands 7 8 9 (omega arith) (omega arith) refl refl
