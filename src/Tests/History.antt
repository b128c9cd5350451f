-- ===== src/Tests/History.antt =====
-- The theorems on the undo history at an entry of one change.
use why.Base.{ℕ, ◌≡◌, refl, inr, true, List, [], ◌∷◌, reverse, length, some, get_elem?, arith}
use why.Machine.Types.{Change, register_change}
use why.Machine.State.{Vm, ok, update, ◌>>=◌, bind_outcome, gets, modify, put_reg, pure}
use why.Machine.History.{apply, apply_all, revert_all, undo, redo, commit, expect}
use why.Machine.History.Matches.{apply-revert, Reversible}
use why.Machine.History.Replay.{
  Made, unchanged, changed, apply_all-revert_all, undo_lem, commit_lem,
}
use why.Machine.History.Redo.{Replayable, nothing, next, redo-undo}
use why.Tests.{machine, machine-IsSized, machine-HoldsBytes}

apply-revert_example : Reversible (register_change 9 3 44) true machine
apply-revert_example =
    apply-revert true machine machine-IsSized machine-HoldsBytes (register_change 9 3 44) refl
      (inr tt)

abbrev entry : List Change
entry = register_change 9 3 44 ∷ []

-- The machine before and after the entry, with the pointer at `p`.
abbrev before : ℕ → Vm
before p = record machine { undo_stack = entry ∷ []; undo_pointer = p }

abbrev after : ℕ → Vm
after p = record machine {
  undo_stack = entry ∷ [];
  undo_pointer = p;
  registers = update (λ r. 3) 9 44;
}

entry-Made : (p : ℕ) → Made entry (before p) (after p)
unfolding apply expect ◌>>=◌ bind_outcome gets modify put_reg pure
entry-Made p =
    changed
      (record {
        sized = record { allocated = refl; size_fits = omega arith };
        bytes = λ i. omega arith;
        matches = refl;
        fits = inr tt;
      })
      refl refl unchanged

apply_all-revert_all_example :
    (apply_all entry (before 0) ≡ ok tt (after 0))
    × (revert_all (reverse entry) (after 0) ≡ ok tt (before 0))
apply_all-revert_all_example = apply_all-revert_all entry (before 0) (after 0) (entry-Made 0)

undo_lem_example : undo (after 1) ≡ ok true (before 0)
undo_lem_example = undo_lem entry (before 0) (after 1) (omega arith) refl (entry-Made 0)

entry-Replayable : Replayable entry (before 1)
entry-Replayable =
    next
      (record {
        sized = record { allocated = refl; size_fits = omega arith };
        bytes = λ i. omega arith;
        matches = refl;
        fits = inr tt;
      })
      (λ middle h. nothing)

redo-undo_example : (b : Vm) × (redo (before 0) ≡ ok true b) × (undo b ≡ ok true (before 0))
redo-undo_example = redo-undo entry (before 0) (omega arith) refl entry-Replayable

commit_lem_example :
    (get_elem? (commit entry machine).undo_stack 0 ≡ some entry)
    × ((commit entry machine).undo_pointer ≡ 1)
    × (length (commit entry machine).undo_stack ≡ 1)
    × ((commit entry machine).change_buffer ≡ [])
commit_lem_example = commit_lem (register_change 9 3 44) [] machine (omega arith)
