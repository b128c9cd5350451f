-- ===== src/Machine/History/Redo.antt =====
-- Redoing an entry and undoing it again: VM::redo and VM::undo.
use why.Base.{
  ◌+◌, ◌-◌, ◌<◌, ◌≡◌, refl, sym, ap, ◌∙◌, true, false, ◌==◌, some, List, [], ◌∷◌, length, get_elem?,
  arith,
}
use why.Machine.Types.{
  Endianness, Change, memory_change, register_change, jump_change, interrupt_table_change,
  ring_change, halt_change, paging_change, p0_change,
}
use why.Machine.State.{Vm, ok, pure, gets, modify, bind_outcome, ◌>>=◌}
use why.Machine.History.{apply, undo, redo}
use why.Machine.History.Matches.{Matches, apply-revert}
use why.Machine.History.Blind.{
  Place, place_of, placed, placed_outcome, get-Blind, apply-place_of, apply-placed,
}
use why.Machine.History.Replay.{
  Recorded, Made, unchanged, changed, apply_all-revert_all, undo_lem, entry_at-found,
}

-- Each change of an entry was recorded in the state that the changes before it lead to.
pub data Replayable : List Change → Vm → Type 0 where
  nothing : {vm : Vm} → Replayable [] vm
  next :
      {c : Change} {cs : List Change} {vm : Vm}
      → Recorded c vm
      → ((middle : Vm) → apply c vm.strict vm ≡ ok tt middle → Replayable cs middle)
      → Replayable (c ∷ cs) vm

-- Such an entry leads somewhere, and the history stays as it is.
Replayable-Made :
    (cs : List Change) (a : Vm)
    → Replayable cs a
    → (b : Vm) × Made cs a b × (place_of b ≡ place_of a)
Replayable-Made [] a nothing = (a, unchanged, refl)
Replayable-Made (c ∷ cs) a (next r rest) =
    let (middle, there, _) = apply-revert a.strict a r.sized r.bytes c r.matches r.fits in
    let stays = apply-place_of a.strict c a middle there in
    let (b, made, still) = Replayable-Made cs middle (rest middle there) in
    (b, changed r there (ap (λ (p : Place). p.strict) stays) made, still ∙ stays)

Matches-placed : (c : Change) (p : Place) (vm : Vm) → Matches c vm → Matches c (placed p vm)
Matches-placed (memory_change address from to size) p vm (inside, found) =
    (assumption, (get-Blind address size Endianness.little).at p vm ∙ ap (placed_outcome p) found)
Matches-placed (register_change reg from to) p vm h = h
Matches-placed (jump_change from to return_from return_to link) p vm h = h
Matches-placed (interrupt_table_change from to) p vm h = h
Matches-placed (ring_change from to) p vm h = h
Matches-placed halt_change p vm h = h
Matches-placed (paging_change from to) p vm h = h
Matches-placed (p0_change from to) p vm h = h

Recorded-placed :
    (c : Change) (p : Place) (vm : Vm)
    → p.strict ≡ vm.strict
    → Recorded c vm
    → Recorded c (placed p vm)
Recorded-placed c p vm e r = record {
  sized = record { allocated = r.sized.allocated; size_fits = r.sized.size_fits };
  bytes = r.bytes;
  matches = Matches-placed c p vm r.matches;
  fits = rw e r.fits;
}

-- The same changes lead from one machine to another wherever they stand in the history.
Made-placed :
    (cs : List Change) (p : Place) (a b : Vm)
    → p.strict ≡ a.strict
    → Made cs a b
    → Made cs (placed p a) (placed p b)
Made-placed [] p a _ e unchanged = unchanged
Made-placed (c ∷ cs) p a b e (changed {middle = middle} r there stays rest) =
    let here : apply c p.strict (placed p a) ≡ ok tt (placed p middle) =
      ap (λ strict. apply c strict (placed p a)) e ∙ apply-placed a.strict c p a middle there in
    changed (Recorded-placed c p a e r) here refl (Made-placed cs p middle b (e ∙ sym stays) rest)

redo_lem :
    (cs : List Change) (a b : Vm)
    → a.undo_pointer < length a.undo_stack
    → get_elem? a.undo_stack a.undo_pointer ≡ some cs
    → Made cs (record a { undo_pointer = a.undo_pointer + 1 }) b
    → redo a ≡ ok true b
unfolding redo ◌>>=◌ bind_outcome gets modify pure
redo_lem cs a b inside found made =
    let below : (a.undo_pointer == length a.undo_stack) ≡ false = ground arith in
    rw
      (
        below,
        entry_at-found _ cs (record a { undo_pointer = a.undo_pointer + 1 }) found,
        (apply_all-revert_all cs _ b made).0,
      )
      refl

undo_after :
    (cs : List Change) (a b : Vm)
    → get_elem? a.undo_stack a.undo_pointer ≡ some cs
    → Made cs (record a { undo_pointer = a.undo_pointer + 1 }) b
    → place_of b ≡ place_of (record a { undo_pointer = a.undo_pointer + 1 })
    → undo b ≡ ok true a
undo_after cs a b found made stays =
    let stack : b.undo_stack ≡ a.undo_stack = ap (λ (p : Place). p.stack) stays in
    let pointer : b.undo_pointer ≡ a.undo_pointer + 1 = ap (λ (p : Place). p.pointer) stays in
    let strict : b.strict ≡ a.strict = ap (λ (p : Place). p.strict) stays in
    let back : b.undo_pointer - 1 ≡ a.undo_pointer = omega arith in
    let there : Made cs a (placed (place_of a) b) =
      Made-placed cs (place_of a) (record a { undo_pointer = a.undo_pointer + 1 }) b refl made in
    let same_place : placed (place_of a) b ≡ record b { undo_pointer = b.undo_pointer - 1 } =
      rw (stack, back, strict) refl in
    undo_lem cs a b (omega arith) (rw (stack, back) found) (rw same_place at there)

-- When there is an entry at the pointer, each of whose changes was recorded in the state that the ones
-- before it lead to, from this machine with its pointer one higher, redo returns true, and undo then
-- returns true with this very machine.
pub redo-undo :
    (cs : List Change) (a : Vm)
    → a.undo_pointer < length a.undo_stack
    → get_elem? a.undo_stack a.undo_pointer ≡ some cs
    → Replayable cs (record a { undo_pointer = a.undo_pointer + 1 })
    → (b : Vm) × (redo a ≡ ok true b) × (undo b ≡ ok true a)
redo-undo cs a inside found entry =
    let (b, made, stays) =
      Replayable-Made cs (record a { undo_pointer = a.undo_pointer + 1 }) entry in
    (b, redo_lem cs a b inside found made, undo_after cs a b found made stays)
