-- ===== src/Machine/History/Replay.antt =====
-- VM::undo, the loops of it and of VM::redo, and the entries that VM::finishChange makes.
use why.Base.{
  ℕ, zero, suc, ◌+◌, ◌-◌, ◌≤◌, ◌<◌, ◌≡◌, ◌⊎◌, refl, sym, ap, ◌∙◌, true, false, ◌==◌, some, List, [],
  ◌∷◌, ◌++◌, reverse, length, get_elem?, arith, length-append, length-take,
}
use mathlib.Core.List.{reverse-cons}
use why.Machine.Types.{Change}
use why.Machine.State.{
  Outcome, Vm, M, ok, throws, undefined, pure, gets, modify, bind_outcome, ◌>>=◌,
}
use why.Machine.Memory.Access.{IsSized, HoldsBytes}
use why.Machine.History.{apply, revert, revert_all, apply_all, undo, entry_at, commit, kept_entries}
use why.Machine.History.Matches.{Matches, Fits, apply-revert}

-- The change was recorded in this state, and can be taken back.
pub record Recorded (c : Change) (vm : Vm) : Type 0 where
  pub sized : IsSized vm
  pub bytes : HoldsBytes vm
  pub matches : Matches c vm
  pub fits : (vm.strict ≡ false) ⊎ Fits c

-- The changes of an entry, made one after the other, lead from the first machine to the second.
pub data Made : List Change → Vm → Vm → Type 0 where
  unchanged : {vm : Vm} → Made [] vm vm
  changed :
      {c : Change} {cs : List Change} {before middle after : Vm}
      → Recorded c before
      → apply c before.strict before ≡ ok tt middle
      → middle.strict ≡ before.strict
      → Made cs middle after
      → Made (c ∷ cs) before after

vm_of : {A : Type 0} → Vm → Outcome A → Vm
vm_of vm (ok a w) = w
vm_of vm (throws e w) = vm
vm_of vm undefined = vm

ok-injective : (v w : Vm) → Path (Outcome (Unit {0})) (ok tt v) (ok tt w) → v ≡ w
unfolding vm_of
ok-injective v w e = ap (vm_of v) e

-- A chain of actions that returns is made of actions that return.
bind-returns :
    (o : Outcome (Unit {0})) (f : Unit {0} → M (Unit {0})) (m : Vm)
    → bind_outcome o f ≡ ok tt m
    → (middle : Vm) × (o ≡ ok tt middle) × (f tt middle ≡ ok tt m)
unfolding bind_outcome
bind-returns (ok a vm) f m h = (vm, refl, h)
bind-returns (throws e vm) f m h = cc
bind-returns undefined f m h = cc

-- Two lists of changes undone one after the other.
revert_all-append :
    (xs ys : List Change) (b m a : Vm)
    → revert_all xs b ≡ ok tt m
    → revert_all ys m ≡ ok tt a
    → revert_all (xs ++ ys) b ≡ ok tt a
unfolding revert_all ◌>>=◌ bind_outcome gets pure
revert_all-append [] ys b m a h k = ap (revert_all ys) (ok-injective b m h) ∙ k
revert_all-append (x ∷ xs) ys b m a h k =
    let (middle, e, rest) = bind-returns (revert x b.strict b) (λ _. revert_all xs) m h in
    rw e (revert_all-append xs ys middle m a rest k)

reverts :
    (c : Change) (before middle : Vm)
    → Recorded c before
    → apply c before.strict before ≡ ok tt middle
    → middle.strict ≡ before.strict
    → revert_all (c ∷ []) middle ≡ ok tt before
unfolding revert_all ◌>>=◌ bind_outcome gets pure
reverts c before middle r e s =
    let (made, there, back) =
      apply-revert before.strict before r.sized r.bytes c r.matches r.fits in
    let same : made ≡ middle = ok-injective made middle (sym there ∙ e) in
    let undone : revert c middle.strict middle ≡ ok tt before =
      ap (λ strict. revert c strict middle) s ∙ ap (revert c before.strict) (sym same) ∙ back in
    rw undone refl

-- An entry whose changes lead from one machine to another is redone from the first to the second, and
-- undone from the second to the first.
pub apply_all-revert_all :
    (cs : List Change) (a b : Vm)
    → Made cs a b
    → (apply_all cs a ≡ ok tt b) × (revert_all (reverse cs) b ≡ ok tt a)
unfolding apply_all revert_all ◌>>=◌ bind_outcome gets pure
apply_all-revert_all [] a _ unchanged = (refl, refl)
apply_all-revert_all (c ∷ cs) a b (changed {middle = middle} r e s rest) =
    let later = apply_all-revert_all cs middle b rest in
    (
      rw e later.0,
      rw reverse-cons
          (revert_all-append (reverse cs) (c ∷ []) b middle a later.1 (reverts c a middle r e s)),
    )

pub entry_at-found :
    (i : ℕ) (cs : List Change) (vm : Vm)
    → get_elem? vm.undo_stack i ≡ some cs
    → entry_at i vm ≡ ok cs vm
unfolding entry_at pure
entry_at-found i cs vm found = rw (found, entry_at) refl

-- VM::undo, when the entry before the pointer led to the machine from one whose pointer is one lower:
-- it returns true, with that machine.
pub undo_lem :
    (cs : List Change) (a b : Vm)
    → 0 < b.undo_pointer
    → get_elem? b.undo_stack (b.undo_pointer - 1) ≡ some cs
    → Made cs a (record b { undo_pointer = b.undo_pointer - 1 })
    → undo b ≡ ok true a
unfolding undo ◌>>=◌ bind_outcome gets modify pure
undo_lem cs a b positive found made =
    let above : (b.undo_pointer == 0) ≡ false = ground arith in
    rw
      (
        above,
        entry_at-found _ cs (record b { undo_pointer = b.undo_pointer - 1 }) found,
        (apply_all-revert_all cs a _ made).1,
      )
      refl

get_elem?-append :
    {A : Type 0} (xs : List A) (x : A) (n : ℕ) → length xs ≡ n → get_elem? (xs ++ x ∷ []) n ≡ some x
get_elem?-append [] x zero h = refl
get_elem?-append [] x (suc n) h = absurd (omega arith)
get_elem?-append (y ∷ xs) x zero h = absurd (omega arith)
get_elem?-append (y ∷ xs) x (suc n) h = get_elem?-append xs x n (omega arith)

kept_entries-length :
    (vm : Vm) → vm.undo_pointer ≤ length vm.undo_stack → length (kept_entries vm) ≡ vm.undo_pointer
unfolding kept_entries
kept_entries-length vm h = ground (arith, length-take vm.undo_pointer vm.undo_stack)

-- With the pointer within the stack, committing changes makes them the entry before the pointer, which is
-- one higher, and the last entry of the stack, so that there is nothing to redo; the buffer is empty.
pub commit_lem :
    (c : Change) (cs : List Change) (vm : Vm)
    → vm.undo_pointer ≤ length vm.undo_stack
    → (get_elem? (commit (c ∷ cs) vm).undo_stack vm.undo_pointer ≡ some (c ∷ cs))
      × ((commit (c ∷ cs) vm).undo_pointer ≡ vm.undo_pointer + 1)
      × (length (commit (c ∷ cs) vm).undo_stack ≡ vm.undo_pointer + 1)
      × ((commit (c ∷ cs) vm).change_buffer ≡ [])
unfolding commit
commit_lem c cs vm h = (
  get_elem?-append (kept_entries vm) (c ∷ cs) vm.undo_pointer (kept_entries-length vm h),
  refl,
  omega (arith, length-append (kept_entries vm) ((c ∷ cs) ∷ []), kept_entries-length vm h),
  refl,
)
