-- ===== src/Machine/Memory.antt =====
-- Memory access, wvm/src/VM.cpp: getWord to setByte, get and set.
-- The bounds tests are the source's, with `address - 7` as a signed number; a byte past the end of
-- the vector that they let through is `undefined`.
pub mod Bytes
pub mod Access
pub mod RoundTrip
pub mod Bounds
use why.Base.{
  ℕ, zero, suc, ◌+◌, ◌-◌, ◌*◌, ◌/◌, ◌%◌, ◌^◌, Bool, true, false, ◌||◌, List, [], ◌∷◌, reverse, ltb,
  leb, ◌==◌, if◌then◌else◌, signed, ltb_ℤ, sub64, bit_or, slt, sle, extend8, extend16, extend32,
}
use why.Machine.Types.{Size, Endianness}
use why.Machine.State.{Vm, Exn, M, pure, throw, fault, gets, modify, ◌>>=◌, ◌>>◌, update}

-- One element of the vector `memory`.
unfoldable pub read_byte : ℕ → M ℕ
unfolding pure fault
read_byte i vm = if ltb i vm.allocated then pure (vm.memory i) vm else fault vm

unfoldable pub write_byte : ℕ → ℕ → M (Unit {0})
unfolding modify fault
write_byte i b vm =
    if ltb i vm.allocated
    then modify (λ v. record v { memory = update v.memory i b }) vm
    else fault vm

-- `memory[i]`, `memory[i + 1]`, … for as many as are asked for.
unfoldable pub read_bytes : ℕ → ℕ → M (List ℕ)
unfolding read_byte
read_bytes zero i = pure []
read_bytes (suc n) i = do b ← read_byte i; bs ← read_bytes n (i + 1); pure (b ∷ bs)

unfoldable pub write_bytes : List ℕ → ℕ → M (Unit {0})
unfolding write_byte
write_bytes [] i = pure tt
write_bytes (b ∷ bs) i = do write_byte i b; write_bytes bs (i + 1)

-- `value & 0xff`, `(value >> 8) & 0xff`, …, and back by `out |= byte << (8 * i)`.
unfoldable pub split_bytes : ℕ → ℕ → List ℕ
split_bytes zero value = []
split_bytes (suc n) value = (value % 2 ^ 8) ∷ split_bytes n (value / 2 ^ 8)

unfoldable pub join_bytes : List ℕ → ℕ
join_bytes [] = 0
join_bytes (b ∷ bs) = bit_or (join_bytes bs * 2 ^ 8) b

-- The order in memory of bytes that are listed from the lowest.
unfoldable pub ordered : Endianness → List ℕ → List ℕ
ordered Endianness.little bs = bs
ordered Endianness.big bs = reverse bs

-- `Word(memorySize) <= address - span || address < 0`.
unfoldable pub out_of_bounds : ℕ → ℕ → Vm → Bool
out_of_bounds span address vm = sle vm.memory_size (sub64 address span) || slt address 0

-- The test at the head of each accessor of `suc span` bytes.
unfoldable pub check_bounds : ℕ → ℕ → M (Unit {0})
unfolding out_of_bounds
check_bounds span address = do
  outside ← gets (out_of_bounds span address)
  if outside then throw Exn.out_of_bounds else pure tt

unfoldable pub load : ℕ → ℕ → Endianness → M ℕ
unfolding check_bounds read_bytes join_bytes ordered
load span address endianness = do
  check_bounds span address
  bs ← read_bytes (suc span) address
  pure (join_bytes (ordered endianness bs))

unfoldable pub store : ℕ → ℕ → ℕ → Endianness → M (Unit {0})
unfolding check_bounds write_bytes split_bytes ordered
store span address value endianness = do
  check_bounds span address
  write_bytes (ordered endianness (split_bytes (suc span) value)) address

unfoldable pub get_word : ℕ → Endianness → M ℕ
unfolding load
get_word = load 7

unfoldable pub get_halfword : ℕ → Endianness → M ℕ
unfolding load
get_halfword = load 3

unfoldable pub get_quarterword : ℕ → Endianness → M ℕ
unfolding load
get_quarterword = load 1

unfoldable pub get_byte : ℕ → M ℕ
unfolding load
get_byte address = load 0 address Endianness.little

unfoldable pub set_word : ℕ → ℕ → Endianness → M (Unit {0})
unfolding store
set_word = store 7

unfoldable pub set_halfword : ℕ → ℕ → Endianness → M (Unit {0})
unfolding store
set_halfword = store 3

unfoldable pub set_quarterword : ℕ → ℕ → Endianness → M (Unit {0})
unfolding store
set_quarterword = store 1

unfoldable pub set_byte : ℕ → ℕ → M (Unit {0})
unfolding store
set_byte address value = store 0 address value Endianness.little

-- VM::get and VM::set.
unfoldable pub get : ℕ → Size → Endianness → M ℕ
unfolding get_word get_halfword get_quarterword get_byte
get address Size.byte endianness = get_byte address
get address Size.qword endianness = get_quarterword address endianness
get address Size.hword endianness = get_halfword address endianness
get address Size.word endianness = get_word address endianness

unfoldable pub set : ℕ → ℕ → Size → Endianness → M (Unit {0})
unfolding set_word set_halfword set_quarterword set_byte
set address value Size.byte endianness = set_byte address value
set address value Size.qword endianness = set_quarterword address value endianness
set address value Size.hword endianness = set_halfword address value endianness
set address value Size.word endianness = set_word address value endianness
