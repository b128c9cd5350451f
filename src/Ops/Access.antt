-- ===== src/Ops/Access.antt =====
-- What the loads and stores of wvm/src/Operations.cpp have in common: an address that does not
-- translate raises a page fault, and a page that is not writable a write fault.
use why.Base.{ℕ, false, if◌then◌else◌}
use why.Machine.Types.{Size, Endianness}
use why.Machine.State.{M, pure, ◌>>=◌, ◌>>◌}
use why.Machine.Memory.{get, set}
use why.Machine.Paging.{translate_address}
use why.Machine.History.{buffer_change, memory_change_to}
use why.Machine.Control.{set_reg, increment, check_writable, int_pfault, int_bwrite}

unfoldable pub on_translated : ℕ → (ℕ → M (Unit {0})) → M (Unit {0})
on_translated address k = do
  (translated, success) ← translate_address address
  if success then k translated else (do _ ← int_pfault; pure tt)

-- `if (vm.checkWritable()) m; else vm.intBwrite(translated);`
unfoldable pub if_writable : ℕ → M (Unit {0}) → M (Unit {0})
if_writable translated m = do
  writable ← check_writable
  if writable then m else (do _ ← int_bwrite translated; pure tt)

-- A recorded write to memory. The change keeps the whole word, and the memory the part of the size.
unfoldable pub change_memory : ℕ → ℕ → Size → M (Unit {0})
change_memory address value size = do
  buffer_change (memory_change_to address value size)
  set address value size Endianness.little

unfoldable pub store_value : ℕ → ℕ → Size → M (Unit {0})
unfolding if_writable change_memory
store_value translated value size =
    if_writable translated (do change_memory translated value size; increment)

unfoldable pub load_value : ℕ → ℕ → Size → M (Unit {0})
load_value rd translated size = do
  value ← get translated size Endianness.little
  set_reg rd value false
  increment
