-- ===== src/Machine/History.antt =====
-- The undo history: wvm/src/Changes.cpp, and recordChange, bufferChange, finishChange, undo and redo
-- of class VM. The mutex is left out: one thread at a time runs an action.
pub mod Matches
pub mod Replay
mod Blind
pub mod Redo
use why.Base.{
  ℕ, zero, suc, ◌+◌, ◌-◌, Bool, true, false, not, ◌&&◌, ◌||◌, Option, none, some, List, [], ◌∷◌,
  ◌++◌, reverse, ltb, ◌==◌, if◌then◌else◌, length, take, get_elem?, add64,
}
use why.Machine.Types.{
  Size, Endianness, Change, memory_change, register_change, jump_change, interrupt_table_change,
  ring_change, halt_change, paging_change, p0_change,
}
use why.Machine.Reg
use why.Machine.State.{Vm, Exn, M, pure, throw, gets, modify, ◌>>=◌, ◌>>◌, when, get_reg, put_reg}
use why.Machine.Memory.{get, set}

-- VM::start and VM::stop.
unfoldable pub start : M (Unit {0})
start = modify (λ vm. record vm { active = true })

unfoldable pub stop : M (Unit {0})
stop = modify (λ vm. record vm { active = false })

-- The constructors that take the old value from the machine.
unfoldable pub memory_change_to : ℕ → ℕ → Size → M Change
memory_change_to address to size = do
  from ← get address size Endianness.little
  pure (memory_change address from to size)

unfoldable pub register_change_to : ℕ → ℕ → M Change
register_change_to reg to = gets (λ vm. register_change reg (vm.registers reg) to)

unfoldable pub jump_change_to : ℕ → Bool → M Change
jump_change_to to link = gets λ vm.
    jump_change vm.program_counter to (vm.registers Reg.return_address) (add64 vm.program_counter 8)
      link

unfoldable pub interrupt_table_change_to : ℕ → M Change
interrupt_table_change_to to = gets (λ vm. interrupt_table_change vm.interrupt_table_address to)

-- VM::finishChange: what was undone before is dropped, and the buffer becomes one entry.
unfoldable pub kept_entries : Vm → List (List Change)
kept_entries vm =
    if ltb vm.undo_pointer (length vm.undo_stack)
    then take vm.undo_pointer vm.undo_stack
    else vm.undo_stack

unfoldable pub commit : List Change → Vm → Vm
unfolding kept_entries
commit [] vm = vm
commit (c ∷ cs) vm = record vm {
  undo_stack = kept_entries vm ++ (c ∷ cs) ∷ [];
  undo_pointer = vm.undo_pointer + 1;
  change_buffer = [];
}

unfoldable pub finish_change : M (Unit {0})
unfolding commit
finish_change = modify (λ vm. if vm.enable_history then commit vm.change_buffer vm else vm)

-- VM::bufferChange and VM::recordChange. A change is built only if the history is on.
unfoldable pub buffer_change : M Change → M (Unit {0})
buffer_change make = do
  enabled ← gets (λ vm. vm.enable_history)
  when enabled do c ← make; modify (λ vm. record vm { change_buffer = vm.change_buffer ++ c ∷ [] })

unfoldable pub record_change : M Change → M (Unit {0})
unfolding finish_change
record_change make = do
  enabled ← gets (λ vm. vm.enable_history)
  when enabled do
    c ← make
    modify (λ vm. record vm { change_buffer = vm.change_buffer ++ c ∷ [] })
    finish_change

-- The test of strict mode: the state has the value that the change expects.
unfoldable pub expect : Bool → (Vm → Bool) → M (Unit {0})
expect strict holds = do
  fits ← gets holds
  if strict && not fits then throw Exn.strict_mismatch else pure tt

unfoldable pub expect_memory : Bool → ℕ → Size → ℕ → M (Unit {0})
expect_memory strict address size value =
    if strict
    then (do
      found ← get address size Endianness.little
      if found == value then pure tt else throw Exn.strict_mismatch)
    else pure tt

-- Equality of two bools.
abbrev pub same : Bool → Bool → Bool
same true b = b
same false b = not b

-- Change::apply, one clause for each class.
unfoldable pub apply : Change → Bool → M (Unit {0})
unfolding expect expect_memory start stop
apply (memory_change address from to size) strict = do
  expect_memory strict address size from
  set address to size Endianness.little
apply (register_change reg from to) strict = do
  expect strict (λ vm. vm.registers reg == from)
  put_reg reg to
apply (jump_change from to return_from return_to link) strict = do
  expect strict (λ vm. vm.program_counter == from)
  expect strict (λ vm. not link || (vm.registers Reg.return_address == return_from))
  modify (λ vm. record vm { program_counter = to })
  when link (put_reg Reg.return_address return_to)
apply (interrupt_table_change from to) strict = do
  expect strict (λ vm. vm.interrupt_table_address == from)
  modify (λ vm. record vm { interrupt_table_address = to })
apply (ring_change from to) strict = do
  expect strict (λ vm. vm.ring == from)
  modify (λ vm. record vm { ring = to })
apply halt_change strict = do expect strict (λ vm. vm.active); stop
apply (paging_change from to) strict = do
  expect strict (λ vm. same vm.paging_on from)
  modify (λ vm. record vm { paging_on = to })
apply (p0_change from to) strict = do
  expect strict (λ vm. vm.p0 == from)
  modify (λ vm. record vm { p0 = to })

-- Change::undo.
unfoldable pub revert : Change → Bool → M (Unit {0})
unfolding expect expect_memory start stop
revert (memory_change address from to size) strict = do
  expect_memory strict address size to
  set address from size Endianness.little
revert (register_change reg from to) strict = do
  expect strict (λ vm. vm.registers reg == to)
  put_reg reg from
revert (jump_change from to return_from return_to link) strict = do
  expect strict (λ vm. vm.program_counter == to)
  expect strict (λ vm. not link || (vm.registers Reg.return_address == return_to))
  modify (λ vm. record vm { program_counter = from })
  when link (put_reg Reg.return_address return_from)
revert (interrupt_table_change from to) strict = do
  expect strict (λ vm. vm.interrupt_table_address == to)
  modify (λ vm. record vm { interrupt_table_address = from })
revert (ring_change from to) strict = do
  expect strict (λ vm. vm.ring == to)
  modify (λ vm. record vm { ring = from })
revert halt_change strict = do expect strict (λ vm. not vm.active); start
revert (paging_change from to) strict = do
  expect strict (λ vm. same vm.paging_on to)
  modify (λ vm. record vm { paging_on = from })
revert (p0_change from to) strict = do
  expect strict (λ vm. vm.p0 == to)
  modify (λ vm. record vm { p0 = from })

-- The loops of VM::undo (over the reversed entry) and VM::redo; `strict` is read at each change.
unfoldable pub revert_all : List Change → M (Unit {0})
unfolding revert
revert_all [] = pure tt
revert_all (c ∷ cs) = do strict ← gets (λ vm. vm.strict); revert c strict; revert_all cs

unfoldable pub apply_all : List Change → M (Unit {0})
unfolding apply
apply_all [] = pure tt
apply_all (c ∷ cs) = do strict ← gets (λ vm. vm.strict); apply c strict; apply_all cs

-- `undoStack.at(i)`.
unfoldable pub entry_at : ℕ → M (List Change)
entry_at i vm = elim (get_elem? vm.undo_stack i) [
  | none ↦ throw Exn.out_of_range vm
  | some cs ↦ pure cs vm
]

-- VM::undo and VM::redo. The pointer moves before the changes are made.
unfoldable pub undo : M Bool
unfolding entry_at revert_all
undo = do
  pointer ← gets (λ vm. vm.undo_pointer)
  let step_back = do
    modify (λ vm. record vm { undo_pointer = pointer - 1 })
    changes ← entry_at (pointer - 1)
    revert_all (reverse changes)
    pure true
  if pointer == 0 then pure false else step_back

unfoldable pub redo : M Bool
unfolding entry_at apply_all
redo = do
  pointer ← gets (λ vm. vm.undo_pointer)
  size ← gets (λ vm. length vm.undo_stack)
  let step_forward = do
    modify (λ vm. record vm { undo_pointer = pointer + 1 })
    changes ← entry_at pointer
    apply_all changes
    pure true
  if pointer == size then pure false else step_forward
