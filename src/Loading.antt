-- ===== src/Loading.antt =====
-- Loading of a program into the machine: VM::load from a stream, and the offsets that VM::init takes
-- from the program's head, of wvm/src/VM.cpp.
pub mod RoundTrip
pub mod Start
use why.Base.{
  ℕ, suc, ◌+◌, ◌-◌, ◌*◌, ◌^◌, Bool, not, ◌||◌, List, [], ◌∷◌, ◌++◌, length, ◌==◌, ltb,
  if◌then◌else◌,
}
use why.Machine.Types.{Endianness}
use why.Machine.State.{Vm, Exn, M, Drive, pure, throw, fault, modify, gets, put_reg, ◌>>=◌, ◌>>◌}
use why.Machine.Reg.{global_area_pointer, stack_pointer}
use why.Machine.Memory.{get_word, set_word}
use why.Object.Text.{get_lines, scan_ulong, scanned_value}

-- `8 * (lineno - 1)`, an int, and its overflow.
unfoldable pub line_address : ℕ → M ℕ
unfolding fault pure
line_address n = if ltb (8 * n) (2 ^ 31) then pure (8 * n) else fault

-- The loop over the lines; `n` is `lineno - 1`.
unfoldable pub load_lines : List (List ℕ) → ℕ → M (Unit {0})
unfolding line_address scan_ulong scanned_value set_word throw pure ◌>>=◌
load_lines [] n = pure tt
load_lines (line ∷ lines) n = do
  if not (length line == 16) || not ((scan_ulong line 0).consumed == 16)
      then throw Exn.invalid_line
      else pure tt
  address ← line_address n
  set_word address (scanned_value (scan_ulong line 0)) Endianness.big
  load_lines lines (n + 1)

-- `memory.clear(); memory.resize(memorySize);`, after the drives whose files could be opened.
unfoldable pub clear_memory : List Drive → Vm → Vm
clear_memory opened vm = record vm {
  drives = vm.drives ++ opened;
  memory = λ i. 0;
  allocated = vm.memory_size;
}

-- VM::load, up to the call of `init`.
unfoldable pub load_stream : List ℕ → List Drive → M (Unit {0})
unfolding load_lines clear_memory modify get_lines ◌>>=◌
load_stream text opened = do modify (clear_memory opened); load_lines (get_lines text) 0

-- The offsets of class VM, which stand at -1 before a program is loaded.
pub record Offsets : Type 0 where
  pub code_offset : ℕ
  pub data_offset : ℕ
  pub symbols_offset : ℕ
  pub debug_offset : ℕ
  pub relocation_offset : ℕ
  pub end_offset : ℕ

-- `if (offset == -1) offset = getWord(address, Little);`
unfoldable pub default_offset : ℕ → ℕ → M ℕ
default_offset offset address =
    if offset == 2 ^ 64 - 1 then get_word address Endianness.little else pure offset

-- The first of them sets the program counter too.
unfoldable pub default_code_offset : ℕ → M ℕ
default_code_offset offset =
    if offset == 2 ^ 64 - 1
    then (do
      start ← get_word 0 Endianness.little
      modify (λ vm. record vm { program_counter = start })
      pure start)
    else pure offset

-- VM::init, up to the calls of `loadSymbols` and `loadDebugData`.
unfoldable pub init_offsets : Offsets → M Offsets
init_offsets o = do
  code ← default_code_offset o.code_offset
  data_start ← default_offset o.data_offset 8
  symbols ← default_offset o.symbols_offset 16
  debug ← default_offset o.debug_offset 24
  relocation ← default_offset o.relocation_offset 32
  last ← default_offset o.end_offset 40
  put_reg global_area_pointer last
  size ← gets (λ vm. vm.memory_size)
  put_reg stack_pointer size
  pure (record {
    code_offset = code;
    data_offset = data_start;
    symbols_offset = symbols;
    debug_offset = debug;
    relocation_offset = relocation;
    end_offset = last;
  })
