-- ===== src/Machine/History/Matches.antt =====
-- Applying a change and undoing it.
use why.Base.{
  ℕ, suc, ◌<◌, ◌≡◌, ◌⊎◌, inl, inr, refl, sym, ap, ◌∙◌, fun_ext, Bool, true, false, not, ◌==◌,
  Bool-cases, arith,
}
use native.Mathlib.Nat.{mod-eq_of_lt}
use why.Machine.Types.{
  Size, Endianness, Change, memory_change, register_change, jump_change, interrupt_table_change,
  ring_change, halt_change, paging_change, p0_change,
}
use why.Machine.Reg
use why.Machine.State.{
  Outcome, Vm, ok, pure, throw, gets, modify, ◌>>=◌, bind_outcome, update, put_reg,
}
use why.Machine.Memory.{get, set}
use why.Machine.Memory.Bytes.{span_mod}
use why.Machine.Memory.Access.{IsSized, HoldsBytes, InMemory}
use why.Machine.Memory.RoundTrip.{span_of, get_lem, set_lem, after_set, set-got, get-after_set, got}
use why.Machine.History.{apply, revert, expect, expect_memory, same, start, stop}

-- The machine is in the state that the change was recorded in.
abbrev pub Matches : Change → Vm → Type 0
Matches (memory_change address from to size) vm =
    InMemory (span_of size) address vm × (get address size Endianness.little vm ≡ ok from vm)
Matches (register_change reg from to) vm = vm.registers reg ≡ from
Matches (jump_change from to return_from return_to link) vm =
    (vm.program_counter ≡ from) × ((link ≡ false) ⊎ (vm.registers Reg.return_address ≡ return_from))
Matches (interrupt_table_change from to) vm = vm.interrupt_table_address ≡ from
Matches (ring_change from to) vm = vm.ring ≡ from
Matches halt_change vm = vm.active ≡ true
Matches (paging_change from to) vm = vm.paging_on ≡ from
Matches (p0_change from to) vm = vm.p0 ≡ from

-- What a memory change writes fits its size.
abbrev pub Fits : Change → Type 0
Fits (memory_change address from to size) = to < span_mod (suc (span_of size))
Fits _ = Unit

-- The change can be taken back: applying it returns, and undoing it then gives the machine back.
abbrev pub Reversible : Change → Bool → Vm → Type 0
Reversible c strict vm =
    (changed : Vm) × (apply c strict vm ≡ ok tt changed) × (revert c strict changed ≡ ok tt vm)

update_back : (f : ℕ → ℕ) (r from to : ℕ) → f r ≡ from → update (update f r to) r from ≡ f
update_back f r from to h = fun_ext λ q. ground arith

expect_holds :
    (strict : Bool) (holds : Vm → Bool) (vm : Vm)
    → holds vm ≡ true
    → expect strict holds vm ≡ ok tt vm
unfolding expect ◌>>=◌ bind_outcome gets pure throw
expect_holds true holds vm h = rw h
expect_holds false holds vm h = refl

==_refl : (a : ℕ) → (a == a) ≡ true
==_refl a = ground arith

==_of_eq : (a b : ℕ) → a ≡ b → (a == b) ≡ true
==_of_eq a b h = ground arith

same_refl : (b : Bool) → same b b ≡ true
same_refl true = refl
same_refl false = refl

module _ (strict : Bool) (vm : Vm) where
  register-Reversible :
      (reg from to : ℕ)
      → vm.registers reg ≡ from
      → Reversible (register_change reg from to) strict vm
  unfolding apply revert ◌>>=◌ bind_outcome put_reg modify
  register-Reversible reg from to h = (
    changed,
    rw (expect_holds strict (λ v. v.registers reg == from) vm (==_of_eq _ _ h)),
    rw (expect_holds strict (λ v. v.registers reg == to) changed (ground arith))
        (ap (λ f. ok tt (record vm { registers = f })) (update_back vm.registers reg from to h)),
  )
    where
      changed : Vm
      changed = record vm { registers = update vm.registers reg to }

  table-Reversible :
      (from to : ℕ)
      → vm.interrupt_table_address ≡ from
      → Reversible (interrupt_table_change from to) strict vm
  unfolding apply revert ◌>>=◌ bind_outcome modify
  table-Reversible from to h = (
    changed,
    rw (expect_holds strict (λ v. v.interrupt_table_address == from) vm (==_of_eq _ _ h)),
    rw (expect_holds strict (λ v. v.interrupt_table_address == to) changed (==_refl to))
        (ap (λ a. ok tt (record vm { interrupt_table_address = a })) (sym h)),
  )
    where
      changed : Vm
      changed = record vm { interrupt_table_address = to }

  ring-Reversible : (from to : ℕ) → vm.ring ≡ from → Reversible (ring_change from to) strict vm
  unfolding apply revert ◌>>=◌ bind_outcome modify
  ring-Reversible from to h = (
    changed,
    rw (expect_holds strict (λ v. v.ring == from) vm (==_of_eq _ _ h)),
    rw (expect_holds strict (λ v. v.ring == to) changed (==_refl to))
        (ap (λ a. ok tt (record vm { ring = a })) (sym h)),
  )
    where
      changed : Vm
      changed = record vm { ring = to }

  p0-Reversible : (from to : ℕ) → vm.p0 ≡ from → Reversible (p0_change from to) strict vm
  unfolding apply revert ◌>>=◌ bind_outcome modify
  p0-Reversible from to h = (
    changed,
    rw (expect_holds strict (λ v. v.p0 == from) vm (==_of_eq _ _ h)),
    rw (expect_holds strict (λ v. v.p0 == to) changed (==_refl to))
        (ap (λ a. ok tt (record vm { p0 = a })) (sym h)),
  )
    where
      changed : Vm
      changed = record vm { p0 = to }

  paging-Reversible :
      (from to : Bool) → vm.paging_on ≡ from → Reversible (paging_change from to) strict vm
  unfolding apply revert ◌>>=◌ bind_outcome modify
  paging-Reversible from to h = (
    changed,
    rw (expect_holds strict (λ v. same v.paging_on from) vm (rw h (same_refl from))),
    rw (expect_holds strict (λ v. same v.paging_on to) changed (same_refl to))
        (ap (λ a. ok tt (record vm { paging_on = a })) (sym h)),
  )
    where
      changed : Vm
      changed = record vm { paging_on = to }

  halt-Reversible : vm.active ≡ true → Reversible halt_change strict vm
  unfolding apply revert ◌>>=◌ bind_outcome modify start stop
  halt-Reversible h = (
    changed,
    rw (expect_holds strict (λ v. v.active) vm h),
    rw (expect_holds strict (λ v. not v.active) changed refl)
        (ap (λ a. ok tt (record vm { active = a })) (sym h)),
  )
    where
      changed : Vm
      changed = record vm { active = false }

  jump-Reversible :
      (from to return_from return_to : ℕ) (link : Bool)
      → vm.program_counter ≡ from
      → (link ≡ false) ⊎ (vm.registers Reg.return_address ≡ return_from)
      → Reversible (jump_change from to return_from return_to link) strict vm
  unfolding apply revert ◌>>=◌ bind_outcome put_reg modify pure
  jump-Reversible from to return_from return_to false h k = (
    changed,
    rw (
      expect_holds strict (λ v. v.program_counter == from) vm (==_of_eq _ _ h),
      expect_holds strict (λ v. true) vm refl,
    ),
    rw
        (
          expect_holds strict (λ v. v.program_counter == to) changed (==_refl to),
          expect_holds strict (λ v. true) changed refl,
        )
        (ap (λ a. ok tt (record vm { program_counter = a })) (sym h)),
  )
    where
      changed : Vm
      changed = record vm { program_counter = to }
  jump-Reversible from to return_from return_to true h k = (
    changed,
    rw (
      expect_holds strict (λ v. v.program_counter == from) vm (==_of_eq _ _ h),
      expect_holds strict (λ v. v.registers Reg.return_address == return_from) vm
          (==_of_eq _ _ linked),
    ),
    rw
        (
          expect_holds strict (λ v. v.program_counter == to) changed (==_refl to),
          expect_holds strict (λ v. v.registers Reg.return_address == return_to) changed
              (==_refl return_to),
        )
        (λ i. ok tt (record vm {
          program_counter = sym h i;
          registers = update_back vm.registers Reg.return_address return_from return_to linked i;
        })),
  )
    where
      linked : vm.registers Reg.return_address ≡ return_from
      linked = ground (arith, k)

      changed : Vm
      changed = record vm {
        program_counter = to;
        registers = update vm.registers Reg.return_address return_to;
      }

  expect_memory_holds :
      (address : ℕ) (size : Size) (value : ℕ)
      → (strict ≡ false) ⊎ (get address size Endianness.little vm ≡ ok value vm)
      → expect_memory strict address size value vm ≡ ok tt vm
  unfolding expect_memory ◌>>=◌ bind_outcome pure throw
  expect_memory_holds address size value (inl lax) = rw lax
  expect_memory_holds address size value (inr there) = elim (Bool-cases strict) [
    | inl e ↦ rw (e, there, ==_refl value)
    | inr e ↦ rw e
  ]

module _ (strict : Bool) (vm : Vm) (sized : IsSized vm) (bytes : HoldsBytes vm) where
  memory-Reversible :
      (address from to : ℕ) (size : Size)
      → InMemory (span_of size) address vm
      → get address size Endianness.little vm ≡ ok from vm
      → (strict ≡ false) ⊎ (to < span_mod (suc (span_of size)))
      → Reversible (memory_change address from to size) strict vm
  unfolding apply revert ◌>>=◌ bind_outcome
  memory-Reversible address from to size inside there fits = (
    changed,
    rw (expect_memory_holds strict vm address size from (inr there))
        (set_lem vm sized address size Endianness.little inside to),
    rw (expect_memory_holds strict changed address size to written) (
        ap (λ v. set address v size Endianness.little changed) from_got
        ∙ set-got vm sized address size Endianness.little inside bytes to),
  )
    where
      changed : Vm
      changed = after_set vm sized address size Endianness.little inside to

      value_of : Outcome ℕ → ℕ
      value_of (ok v w) = v
      value_of _ = 0

      from_got : from ≡ got vm sized address size Endianness.little inside
      from_got = ap value_of (sym there ∙ get_lem vm sized address size Endianness.little inside)

      written : (strict ≡ false) ⊎ (get address size Endianness.little changed ≡ ok to changed)
      written = elim fits [
        | inl lax ↦ inl lax
        | inr small ↦ inr (
            get-after_set vm sized address size Endianness.little inside to
            ∙ ap (λ v. ok v changed) (mod-eq_of_lt small))
      ]

  -- Applying a change in the state that it was recorded in, and undoing it, is the identity; in strict
  -- mode this takes a value that fits the size that is written.
  pub apply-revert :
      (c : Change) → Matches c vm → (strict ≡ false) ⊎ Fits c → Reversible c strict vm
  apply-revert (memory_change address from to size) h fits =
      memory-Reversible address from to size h.0 h.1 fits
  apply-revert (register_change reg from to) h fits = register-Reversible strict vm reg from to h
  apply-revert (jump_change from to return_from return_to link) h fits =
      jump-Reversible strict vm from to return_from return_to link h.0 h.1
  apply-revert (interrupt_table_change from to) h fits = table-Reversible strict vm from to h
  apply-revert (ring_change from to) h fits = ring-Reversible strict vm from to h
  apply-revert halt_change h fits = halt-Reversible strict vm h
  apply-revert (paging_change from to) h fits = paging-Reversible strict vm from to h
  apply-revert (p0_change from to) h fits = p0-Reversible strict vm from to h
