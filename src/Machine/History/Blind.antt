-- ===== src/Machine/History/Blind.antt =====
-- The changes of wvm/src/Changes.cpp do not read the undo stack, its pointer or the flag of strict mode,
-- and do not change them.
use why.Base.{
  ℕ, zero, suc, ◌+◌, ◌≡◌, refl, sym, ap, ◌∙◌, inl, inr, Bool, true, false, not, ◌&&◌, ◌||◌, ◌==◌,
  ltb, if◌then◌else◌, List, [], ◌∷◌, Bool-cases,
}
use why.Machine.Types.{
  Size, Endianness, Change, memory_change, register_change, jump_change, interrupt_table_change,
  ring_change, halt_change, paging_change, p0_change,
}
use why.Machine.Reg
use why.Machine.State.{
  Vm, Exn, M, Outcome, ok, throws, undefined, pure, throw, fault, gets, modify, bind_outcome, ◌>>=◌,
  put_reg,
}
use why.Machine.Memory.{
  read_byte, write_byte, read_bytes, write_bytes, check_bounds, out_of_bounds, load, store, get,
  set,
}
use why.Machine.Memory.RoundTrip.{span_of, get-load, set-store}
use why.Machine.History.{apply, expect, expect_memory, stop}

-- What the changes are blind to.
pub record Place : Type 0 where
  pub stack : List (List Change)
  pub pointer : ℕ
  pub strict : Bool

abbrev pub place_of : Vm → Place
place_of vm = record { stack = vm.undo_stack; pointer = vm.undo_pointer; strict = vm.strict }

abbrev pub placed : Place → Vm → Vm
placed p vm = record vm { undo_stack = p.stack; undo_pointer = p.pointer; strict = p.strict }

abbrev pub placed_outcome : {A : Type 0} → Place → Outcome A → Outcome A
placed_outcome p (ok a vm) = ok a (placed p vm)
placed_outcome p (throws e vm) = throws e (placed p vm)
placed_outcome p undefined = undefined

pub record Blind {A : Type 0} (m : M A) : Type 0 where
  pub at : (p : Place) (vm : Vm) → m (placed p vm) ≡ placed_outcome p (m vm)

module _ {A : Type 0} where
  Blind-pure : (a : A) → Blind (pure a)
  unfolding pure
  Blind-pure a = record { at = λ p vm. refl }

  Blind-throw : (e : Exn) → Blind {A = A} (throw e)
  unfolding throw
  Blind-throw e = record { at = λ p vm. refl }

  Blind-gets : (f : Vm → A) → ((p : Place) (vm : Vm) → f (placed p vm) ≡ f vm) → Blind (gets f)
  unfolding gets
  Blind-gets f h = record { at = λ p vm. ap (λ (a : A). ok a (placed p vm)) (h p vm) }

  Blind-if : (b : Bool) (m n : M A) → Blind m → Blind n → Blind (if b then m else n)
  Blind-if true m n h k = h
  Blind-if false m n h k = k

Blind-modify :
    (f : Vm → Vm) → ((p : Place) (vm : Vm) → f (placed p vm) ≡ placed p (f vm)) → Blind (modify f)
unfolding modify
Blind-modify f h = record { at = λ p vm. ap (λ (v : Vm). ok tt v) (h p vm) }

module _ {A B : Type 0} where
  after_bind :
      (p : Place) (o : Outcome A) (f : A → M B)
      → ((a : A) → Blind (f a))
      → bind_outcome (placed_outcome p o) f ≡ placed_outcome p (bind_outcome o f)
  unfolding bind_outcome
  after_bind p (ok a vm) f k = (k a).at p vm
  after_bind p (throws e vm) f k = refl
  after_bind p undefined f k = refl

  Blind-bind : (m : M A) (f : A → M B) → Blind m → ((a : A) → Blind (f a)) → Blind (m >>= f)
  unfolding ◌>>=◌
  Blind-bind m f h k = record {
    at = λ p vm. ap (λ (o : Outcome A). bind_outcome o f) (h.at p vm) ∙ after_bind p (m vm) f k;
  }

read_byte-Blind : (i : ℕ) → Blind (read_byte i)
unfolding read_byte pure fault
read_byte-Blind i = record {
  at = λ p vm. elim (Bool-cases (ltb i vm.allocated)) [ inl e ↦ rw e refl | inr e ↦ rw e refl ];
}

write_byte-Blind : (i b : ℕ) → Blind (write_byte i b)
unfolding write_byte modify fault
write_byte-Blind i b = record {
  at = λ p vm. elim (Bool-cases (ltb i vm.allocated)) [ inl e ↦ rw e refl | inr e ↦ rw e refl ];
}

read_bytes-Blind : (n i : ℕ) → Blind (read_bytes n i)
unfolding read_bytes
read_bytes-Blind zero i = Blind-pure []
read_bytes-Blind (suc n) i =
    Blind-bind _ _ (read_byte-Blind i)
      λ b. Blind-bind _ _ (read_bytes-Blind n (i + 1)) (λ bs. Blind-pure (b ∷ bs))

write_bytes-Blind : (bs : List ℕ) (i : ℕ) → Blind (write_bytes bs i)
unfolding write_bytes
write_bytes-Blind [] i = Blind-pure tt
write_bytes-Blind (b ∷ bs) i =
    Blind-bind _ _ (write_byte-Blind i b) (λ _. write_bytes-Blind bs (i + 1))

check_bounds-Blind : (span address : ℕ) → Blind (check_bounds span address)
unfolding check_bounds out_of_bounds
check_bounds-Blind span address =
    Blind-bind _ _ (Blind-gets _ (λ p vm. refl))
      (λ b. Blind-if b _ _ (Blind-throw _) (Blind-pure tt))

pub get-Blind : (address : ℕ) (s : Size) (e : Endianness) → Blind (get address s e)
unfolding load
get-Blind address s e = rw get-load (
    Blind-bind _ _ (check_bounds-Blind (span_of s) address)
      λ _. Blind-bind _ _ (read_bytes-Blind (suc (span_of s)) address) (λ bs. Blind-pure _))

set-Blind : (address value : ℕ) (s : Size) (e : Endianness) → Blind (set address value s e)
unfolding store
set-Blind address value s e =
    rw set-store
      (Blind-bind _ _ (check_bounds-Blind (span_of s) address) (λ _. write_bytes-Blind _ address))

module _ (strict : Bool) where
  expect-Blind :
      (holds : Vm → Bool)
      → ((p : Place) (vm : Vm) → holds (placed p vm) ≡ holds vm)
      → Blind (expect strict holds)
  unfolding expect
  expect-Blind holds h =
      Blind-bind _ _ (Blind-gets holds h)
        (λ fits. Blind-if (strict && not fits) _ _ (Blind-throw _) (Blind-pure tt))

  -- A test and a change of the state.
  tested :
      (holds : Vm → Bool) (f : Vm → Vm)
      → ((p : Place) (vm : Vm) → holds (placed p vm) ≡ holds vm)
      → ((p : Place) (vm : Vm) → f (placed p vm) ≡ placed p (f vm))
      → Blind (expect strict holds >>= λ _. modify f)
  tested holds f h k = Blind-bind _ _ (expect-Blind holds h) (λ _. Blind-modify f k)

  expect_memory-Blind :
      (address : ℕ) (s : Size) (value : ℕ) → Blind (expect_memory strict address s value)
  unfolding expect_memory
  expect_memory-Blind address s value =
      Blind-if strict _ _
        (Blind-bind _ _ (get-Blind address s Endianness.little)
          (λ found. Blind-if (found == value) _ _ (Blind-pure tt) (Blind-throw _)))
        (Blind-pure tt)

  jumped :
      (from to return_from return_to : ℕ) (link : Bool)
      → Blind (
          expect strict (λ vm. vm.program_counter == from) >>= λ _.
          expect strict (λ vm. not link || (vm.registers Reg.return_address == return_from))
          >>= λ _. modify (λ vm. record vm { program_counter = to }) >>= λ _.
              if link then put_reg Reg.return_address return_to else pure tt)
  unfolding put_reg
  jumped from to return_from return_to link = Blind-bind _ _ (expect-Blind _ (λ p vm. refl)) λ _.
      Blind-bind _ _ (expect-Blind _ (λ p vm. refl)) λ _.
        Blind-bind _ _ (Blind-modify _ (λ p vm. refl))
          (λ _. Blind-if link _ _ (Blind-modify _ (λ p vm. refl)) (Blind-pure tt))

  pub apply-Blind : (c : Change) → Blind (apply c strict)
  unfolding apply put_reg stop
  apply-Blind (memory_change address from to s) =
      Blind-bind _ _ (expect_memory-Blind address s from)
        (λ _. set-Blind address to s Endianness.little)
  apply-Blind (register_change reg from to) = tested _ _ (λ p vm. refl) (λ p vm. refl)
  apply-Blind (jump_change from to return_from return_to link) =
      jumped from to return_from return_to link
  apply-Blind (interrupt_table_change from to) = tested _ _ (λ p vm. refl) (λ p vm. refl)
  apply-Blind (ring_change from to) = tested _ _ (λ p vm. refl) (λ p vm. refl)
  apply-Blind halt_change = tested _ _ (λ p vm. refl) (λ p vm. refl)
  apply-Blind (paging_change from to) = tested _ _ (λ p vm. refl) (λ p vm. refl)
  apply-Blind (p0_change from to) = tested _ _ (λ p vm. refl) (λ p vm. refl)

abbrev place_after : Place → Outcome (Unit {0}) → Place
place_after p (ok a vm) = place_of vm
place_after p (throws e vm) = p
place_after p undefined = p

-- A change that returns leaves them as they are.
pub apply-place_of :
    (strict : Bool) (c : Change) (before after : Vm)
    → apply c strict before ≡ ok tt after
    → place_of after ≡ place_of before
apply-place_of strict c before after h =
    let p = place_of before in
    let same_machine : ok tt after ≡ placed_outcome p (ok tt after) =
      sym h ∙ (apply-Blind strict c).at p before ∙ ap (placed_outcome p) h in
    ap (place_after p) same_machine

-- A change that returns does so wherever the machine stands in its history.
pub apply-placed :
    (strict : Bool) (c : Change) (p : Place) (before after : Vm)
    → apply c strict before ≡ ok tt after
    → apply c strict (placed p before) ≡ ok tt (placed p after)
apply-placed strict c p before after h =
    (apply-Blind strict c).at p before ∙ ap (placed_outcome p) h
