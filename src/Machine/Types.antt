-- ===== src/Machine/Types.antt =====
-- The small types of wvm/include/Defs.h, Paging.h, Interrupts.h, Changes.h and Why.h.
use why.Base.{ℕ, ◌*◌, ◌/◌, ◌%◌, ◌^◌, Bool, true, false, ◌==◌}

-- Defs.h, `Size`, in bits.
pub data Size : Type 0 where
  byte qword hword word : Size

-- Why.h, `Endianness`.
pub data Endianness : Type 0 where
  big little : Endianness

-- Interrupts.h, `InterruptType`.
pub data InterruptType : Type 0 where
  system timer protec pfault inexec bwrite keybrd : InterruptType

-- The enumerators' values, System = 1 up to Keybrd = 7.
unfoldable pub interrupt_code : InterruptType → ℕ
interrupt_code system = 1
interrupt_code timer = 2
interrupt_code protec = 3
interrupt_code pfault = 4
interrupt_code inexec = 5
interrupt_code bwrite = 6
interrupt_code keybrd = 7

-- The field `canDisable` of the entries of the table `interrupts` of Interrupts.cpp.
unfoldable pub can_disable : InterruptType → Bool
can_disable timer = true
can_disable keybrd = true
can_disable _ = false

-- Changes.h: the classes derived from `Change`, with their fields. The values are words.
pub data Change : Type 0 where
  memory_change : (address from to : ℕ) → Size → Change
  register_change : (reg from to : ℕ) → Change
  jump_change : (from to return_from return_to : ℕ) (link : Bool) → Change
  interrupt_table_change : (from to : ℕ) → Change
  ring_change : (from to : ℕ) → Change
  halt_change : Change
  paging_change : (from to : Bool) → Change
  p0_change : (from to : ℕ) → Change

-- Paging.h, `PageMeta`: the permission bits of the page that was translated last.
pub record PageMeta : Type 0 where
  pub present : Bool
  pub writable : Bool
  pub executable : Bool
  pub user : Bool
  pub accessed : Bool
  pub modified : Bool

-- Paging.h, `PagingState`.
pub record PagingState : Type 0 where
  pub enabled : Bool
  pub p0 : ℕ

-- Bit `n` of a word.
abbrev pub bit_at : ℕ → ℕ → Bool
bit_at n w = (w / 2 ^ n) % 2 == 1

-- Paging.cpp, the conversion of a P5Entry to a PageMeta.
unfoldable pub page_meta : ℕ → PageMeta
page_meta entry = record {
  present = bit_at 0 entry;
  writable = bit_at 1 entry;
  executable = bit_at 2 entry;
  user = bit_at 3 entry;
  accessed = bit_at 4 entry;
  modified = bit_at 5 entry;
}

-- P04Entry::getNext and P5Entry::getStart: the entry without its flag bits.
unfoldable pub get_next : ℕ → ℕ
get_next entry = entry / 2 ^ 8 * 2 ^ 8

unfoldable pub get_start : ℕ → ℕ
get_start entry = entry / 2 ^ 16 * 2 ^ 16
