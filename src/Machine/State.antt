-- ===== src/Machine/State.antt =====
-- The state of class VM (wvm/include/VM.h) and the actions on it.
-- Every word is its 64-bit pattern. A `Ring` is the 32-bit pattern of its int; a machine's own ring
-- is 0 to 3. `memory` and `registers` are functions, since the model never ranges over them;
-- `allocated` is `memory.size()`.
use why.Base.{ℕ, Bool, List, ◌==◌, if◌then◌else◌}
use why.Machine.Types.{Change, PageMeta, PagingState}

-- What the operating system answers to one system call: the result as a 64-bit pattern, errno,
-- and the bytes that a `read` delivers.
pub record Reply : Type 0 where
  pub result : ℕ
  pub errno : ℕ
  pub bytes : List ℕ

-- The system calls of `ioOp`.
pub data HostCall : Type 0 where
  lseek : (fd offset whence : ℕ) → HostCall
  read_file : (fd count : ℕ) → HostCall
  write_file : (fd : ℕ) (contents : List ℕ) → HostCall

-- VM.h, `Drive`.
pub record Drive : Type 0 where
  pub name : List ℕ
  pub fd : ℕ

-- The arguments of `onPrint`: a register as a character, in decimal, hexadecimal or binary.
pub data Printed : Type 0 where
  as_char as_decimal as_hex as_binary : ℕ → Printed

pub record Vm : Type 0 where
  pub memory_size : ℕ
  pub allocated : ℕ
  pub memory : ℕ → ℕ
  pub registers : ℕ → ℕ
  pub program_counter : ℕ
  pub ring : ℕ
  pub interrupt_table_address : ℕ
  pub p0 : ℕ
  pub paging_on : Bool
  pub paging_stack : List PagingState
  pub last_meta : PageMeta
  pub last_virtual : ℕ
  pub hardware_interrupts_enabled : Bool
  pub active : Bool
  pub paused : Bool
  pub resting : Bool
  pub cycles : ℕ
  pub breakpoints : List ℕ
  pub timer_ticks : ℕ
  pub timer_active : Bool
  pub strict : Bool
  pub enable_history : Bool
  pub undo_stack : List (List Change)
  pub undo_pointer : ℕ
  pub change_buffer : List Change
  pub drives : List Drive
  pub printed : List Printed
  pub host : ℕ → Reply
  pub host_calls : List HostCall

-- The exceptions that the code throws, by what each is about.
pub data Exn : Type 0 where
  out_of_bounds : Exn
  strict_mismatch : Exn
  invalid_interrupt : Exn
  invalid_conditions : Exn
  invalid_push_size : Exn
  invalid_pop_size : Exn
  unknown_opcode : Exn
  unknown_r_type : Exn
  unknown_i_type : Exn
  unknown_j_type : Exn
  out_of_range : Exn
  invalid_line : Exn

-- `undefined` is what C++ leaves undefined: an index past the end of `memory`, an integer
-- division by zero or past the range, a shift by a negative count or by the width and more.
pub data Outcome {ℓ} (A : Type ℓ) : Type ℓ where
  ok : A → Vm → Outcome A
  throws : Exn → Vm → Outcome A
  undefined : Outcome A

abbrev pub M {ℓ} : Type ℓ → Type ℓ
M A = Vm → Outcome A

unfoldable pub pure {ℓ} : {A : Type ℓ} → A → M A
pure a vm = ok a vm

unfoldable pub throw {ℓ} : {A : Type ℓ} → Exn → M A
throw e vm = throws e vm

unfoldable pub fault {ℓ} : {A : Type ℓ} → M A
fault vm = undefined

-- Reads a part of the state, and changes the state.
unfoldable pub gets {ℓ} : {A : Type ℓ} → (Vm → A) → M A
gets f vm = ok (f vm) vm

unfoldable pub modify : (Vm → Vm) → M (Unit {0})
modify f vm = ok tt (f vm)

unfoldable pub bind_outcome {ℓ κ} : {A : Type ℓ} {B : Type κ} → Outcome A → (A → M B) → Outcome B
bind_outcome (ok a vm) f = f a vm
bind_outcome (throws e vm) f = throws e vm
bind_outcome undefined f = undefined

infixl 5 ◌>>=◌ ◌>>◌
unfoldable pub ◌>>=◌ {ℓ κ} : {A : Type ℓ} {B : Type κ} → M A → (A → M B) → M B
unfolding bind_outcome
◌>>=◌ m f vm = bind_outcome (m vm) f

abbrev pub ◌>>◌ {κ} : {B : Type κ} → M (Unit {0}) → M B → M B
m >> k = m >>= λ _. k

-- `if (test) m`.
abbrev pub when : Bool → M (Unit {0}) → M (Unit {0})
when b m = if b then m else pure tt

-- A function changed at one place.
abbrev pub update : (ℕ → ℕ) → ℕ → ℕ → ℕ → ℕ
update f p v q = if p == q then v else f q

-- `vm.registers[reg]`, read and written.
unfoldable pub get_reg : ℕ → M ℕ
unfolding gets
get_reg reg = gets (λ vm. vm.registers reg)

unfoldable pub put_reg : ℕ → ℕ → M (Unit {0})
unfolding modify
put_reg reg value = modify (λ vm. record vm { registers = update vm.registers reg value })
