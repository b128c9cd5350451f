-- ===== src/Tests/Runs.antt =====
-- The theorems on runs, on a machine with `addi $9 <- $8, 41` at its program counter and, after it,
-- instructions that do nothing.
use why.Base.{ℕ, ◌*◌, ◌+◌, ◌^◌, ◌≡◌, refl, true, List, [], ◌∷◌, ◌<◌, arith}
use why.Machine.State.{
  Vm, Outcome, ok, throws, undefined, ◌>>=◌, gets, pure, update, modify, get_reg, put_reg,
}
use why.Machine.Memory.{get_word, split_bytes}
use why.Machine.Memory.Access.{overlay}
use why.Machine.Memory.Bytes.{AreBytes, AreBytes-split_bytes}
use why.Machine.WellFormed.Accessors.{update-fits}
use why.Machine.Paging.{translate_address}
use why.Machine.History.{buffer_change, record_change, register_change_to, jump_change_to}
use why.Machine.Control.{set_reg, increment}
use why.Machine.WellFormed.{WellFormed}
use why.Ops.Immediate.{addi_op}
use why.Ops.Execute.{execute}
use why.Run.{tick}
use why.Run.Reaches.{Reaches, here, then, ticked, returns, Reaches-WellFormed}
use why.Tests.{machine, machine_with-WellFormed}

-- The word that compileI makes for opcode 3.
abbrev programmed : Vm
unfolding split_bytes
programmed = record machine {
  memory = overlay (split_bytes 8 (3 * 2 ^ 52 + 8 * 2 ^ 39 + 9 * 2 ^ 32 + 41)) 8 (λ i. 0);
}

-- Where an action ends.
abbrev end_of : {A : Type 0} → Outcome A → Vm
end_of (ok a vm) = vm
end_of (throws e vm) = vm
end_of undefined = machine

abbrev after_one : Vm
after_one = end_of (tick programmed)

abbrev after_two : Vm
after_two = end_of (tick after_one)

overlay-bytes :
    (bs : List ℕ) (p : ℕ) (f : ℕ → ℕ)
    → AreBytes bs
    → ((i : ℕ) → f i < 2 ^ 8)
    → (i : ℕ) → overlay bs p f i < 2 ^ 8
overlay-bytes [] p f h k i = k i
overlay-bytes (b ∷ bs) p f h k i =
    overlay-bytes bs (p + 1) (update f p b) h.1 (update-fits f p b 8 k h.0) i

tick_adds : (tick programmed ≡ ok true after_one) × (after_one.registers 9 ≡ 44)
unfolding tick ◌>>=◌ gets translate_address get_word execute modify addi_op set_reg increment pure
    get_reg buffer_change register_change_to put_reg record_change jump_change_to
tick_adds = (refl, refl)

tick_again : tick after_one ≡ ok true after_two
unfolding tick ◌>>=◌ gets translate_address get_word execute modify addi_op set_reg increment pure
    get_reg buffer_change register_change_to put_reg record_change jump_change_to
tick_again = refl

programmed-WellFormed : WellFormed 0 64 programmed
unfolding programmed
programmed-WellFormed = machine_with-WellFormed _ (
    overlay-bytes (split_bytes 8 (3 * 2 ^ 52 + 8 * 2 ^ 39 + 9 * 2 ^ 32 + 41)) 8 (λ i. 0)
      (AreBytes-split_bytes 8 (3 * 2 ^ 52 + 8 * 2 ^ 39 + 9 * 2 ^ 32 + 41)) (λ i. omega arith))

a_run : Reaches programmed after_two
a_run = then (then here (ticked (returns true tick_adds.0))) (ticked (returns true tick_again))

Reaches-WellFormed_example : WellFormed 0 64 after_two
Reaches-WellFormed_example =
    Reaches-WellFormed 0 64 programmed after_two a_run programmed-WellFormed
