-- ===== src/Ops/Loads.antt =====
-- The memory instructions of wvm/src/Operations.cpp: cOp to transOp, liOp to lbniOp, and jrlcOp.
use why.Base.{
  ℕ, ◌%◌, ◌^◌, true, false, Option, none, some, zero, suc, ◌==◌, if◌then◌else◌, add64, sub64,
  extend8, extend16, extend32, is_negative,
}
use why.Machine.Types.{Size, Endianness}
use why.Machine.Reg
use why.Machine.State.{Exn, M, pure, throw, gets, ◌>>=◌, ◌>>◌, get_reg}
use why.Machine.Memory.{get}
use why.Machine.Control.{set_reg, increment, jump}
use why.Ops.Access.{on_translated, if_writable, change_memory, store_value, load_value}

-- What the narrow copies keep of a value: Byte, QWord and HWord are signed.
abbrev pub converted : Size → ℕ → ℕ
converted Size.byte value = extend8 value
converted Size.qword value = extend16 value
converted Size.hword value = extend32 value
converted Size.word value = value

unfoldable pub copy : ℕ → ℕ → Size → M (Unit {0})
unfolding on_translated store_value
copy rs rd size = do
  from ← get_reg rs
  on_translated from λ source. do
    value ← get source size Endianness.little
    to ← get_reg rd
    on_translated to λ destination. store_value destination (converted size value) size

unfoldable pub load_from : ℕ → ℕ → Size → M (Unit {0})
unfolding on_translated load_value
load_from rs rd size = do
  address ← get_reg rs
  on_translated address λ translated. load_value rd translated size

unfoldable pub store_to : ℕ → ℕ → Size → M (Unit {0})
unfolding on_translated store_value
store_to rs rd size = do
  address ← get_reg rd
  on_translated address λ translated. do value ← get_reg rs; store_value translated value size

unfoldable pub c_op : ℕ → ℕ → ℕ → M (Unit {0})
unfolding copy
c_op rs rt rd = copy rs rd Size.word

unfoldable pub l_op : ℕ → ℕ → ℕ → M (Unit {0})
unfolding load_from
l_op rs rt rd = load_from rs rd Size.word

unfoldable pub s_op : ℕ → ℕ → ℕ → M (Unit {0})
unfolding store_to
s_op rs rt rd = store_to rs rd Size.word

unfoldable pub cb_op : ℕ → ℕ → ℕ → M (Unit {0})
unfolding copy
cb_op rs rt rd = copy rs rd Size.byte

unfoldable pub lb_op : ℕ → ℕ → ℕ → M (Unit {0})
unfolding load_from
lb_op rs rt rd = load_from rs rd Size.byte

unfoldable pub sb_op : ℕ → ℕ → ℕ → M (Unit {0})
unfolding store_to
sb_op rs rt rd = store_to rs rd Size.byte

unfoldable pub ch_op : ℕ → ℕ → ℕ → M (Unit {0})
unfolding copy
ch_op rs rt rd = copy rs rd Size.hword

unfoldable pub lh_op : ℕ → ℕ → ℕ → M (Unit {0})
unfolding load_from
lh_op rs rt rd = load_from rs rd Size.hword

unfoldable pub sh_op : ℕ → ℕ → ℕ → M (Unit {0})
unfolding store_to
sh_op rs rt rd = store_to rs rd Size.hword

unfoldable pub cs_op : ℕ → ℕ → ℕ → M (Unit {0})
unfolding copy
cs_op rs rt rd = copy rs rd Size.qword

unfoldable pub ls_op : ℕ → ℕ → ℕ → M (Unit {0})
unfolding load_from
ls_op rs rt rd = load_from rs rd Size.qword

unfoldable pub ss_op : ℕ → ℕ → ℕ → M (Unit {0})
unfolding store_to
ss_op rs rt rd = store_to rs rd Size.qword

unfoldable pub spush_op : ℕ → ℕ → ℕ → M (Unit {0})
unfolding on_translated store_value
spush_op rs rt rd = do
  sp ← get_reg Reg.stack_pointer
  set_reg Reg.stack_pointer (sub64 sp 8) false
  address ← get_reg Reg.stack_pointer
  on_translated address λ translated. do value ← get_reg rs; store_value translated value Size.word

unfoldable pub spop_op : ℕ → ℕ → ℕ → M (Unit {0})
unfolding on_translated
spop_op rs rt rd = do
  address ← get_reg Reg.stack_pointer
  on_translated address λ translated. do
    value ← get translated Size.word Endianness.little
    set_reg rd value false
    sp ← get_reg Reg.stack_pointer
    set_reg Reg.stack_pointer (add64 sp 8) false
    increment

-- The sizes that sspush and sspop know, by the immediate.
unfoldable pub size_of : ℕ → Option Size
size_of immediate =
    if immediate == 1
    then some Size.byte
    else if immediate == 2
    then some Size.qword
    else if immediate == 4
    then some Size.hword
    else if immediate == 8
    then some Size.word
    else none

unfoldable pub or_throw : Option Size → Exn → M Size
or_throw none e = throw e
or_throw (some size) e = pure size

unfoldable pub sspush_op : ℕ → ℕ → ℕ → M (Unit {0})
unfolding on_translated if_writable change_memory size_of or_throw
sspush_op rs rd immediate = do
  sp ← get_reg Reg.stack_pointer
  set_reg Reg.stack_pointer (sub64 sp (extend32 immediate)) false
  address ← get_reg Reg.stack_pointer
  on_translated address λ translated. if_writable translated do
    size ← or_throw (size_of immediate) Exn.invalid_push_size
    value ← get_reg rs
    change_memory translated value size
    increment

unfoldable pub sspop_op : ℕ → ℕ → ℕ → M (Unit {0})
unfolding on_translated size_of or_throw
sspop_op rs rd immediate = do
  address ← get_reg Reg.stack_pointer
  on_translated address λ translated. do
    size ← or_throw (size_of immediate) Exn.invalid_pop_size
    value ← get translated size Endianness.little
    set_reg rd value false
    sp ← get_reg Reg.stack_pointer
    set_reg Reg.stack_pointer (add64 sp (extend32 immediate)) false
    increment

-- The loop of msOp from the address on, with the rounds left. A fault ends the instruction.
unfoldable pub fill : ℕ → ℕ → ℕ → M (Unit {0})
unfolding on_translated if_writable change_memory
fill zero address value = increment
fill (suc left) address value = on_translated address λ translated.
    if_writable translated
      do change_memory translated (value % 2 ^ 8) Size.byte; fill left (add64 address 1) value

-- A negative count makes no round.
unfoldable pub ms_op : ℕ → ℕ → ℕ → M (Unit {0})
unfolding fill
ms_op rs rt rd = do
  count ← get_reg rs
  value ← get_reg rt
  address ← get_reg rd
  fill (if is_negative count then 0 else count) address value

unfoldable pub trans_op : ℕ → ℕ → ℕ → M (Unit {0})
unfolding on_translated
trans_op rs rt rd = do
  on ← gets (λ vm. vm.paging_on)
  address ← get_reg rs
  if on
      then on_translated address (λ translated. do set_reg rd translated false; increment)
      else (do set_reg rd address false; increment)

unfoldable pub li_op : ℕ → ℕ → ℕ → M (Unit {0})
unfolding on_translated load_value
li_op rs rd immediate =
    on_translated (extend32 immediate) λ translated. load_value rd translated Size.word

unfoldable pub lbi_op : ℕ → ℕ → ℕ → M (Unit {0})
unfolding on_translated load_value
lbi_op rs rd immediate =
    on_translated (extend32 immediate) λ translated. load_value rd translated Size.byte

unfoldable pub store_immediate : ℕ → ℕ → Size → M (Unit {0})
unfolding on_translated store_value
store_immediate rs address size =
    on_translated address λ translated. do value ← get_reg rs; store_value translated value size

unfoldable pub si_op : ℕ → ℕ → ℕ → M (Unit {0})
unfolding store_immediate
si_op rs rd immediate = store_immediate rs (extend32 immediate) Size.word

unfoldable pub sbi_op : ℕ → ℕ → ℕ → M (Unit {0})
unfolding store_immediate
sbi_op rs rd immediate = store_immediate rs (extend32 immediate) Size.byte

unfoldable pub sps_op : ℕ → ℕ → ℕ → M (Unit {0})
unfolding store_immediate
sps_op rs rd immediate = do
  fp ← get_reg Reg.frame_pointer
  store_immediate rs (sub64 fp (extend32 immediate)) Size.word

unfoldable pub spl_op : ℕ → ℕ → ℕ → M (Unit {0})
unfolding on_translated load_value
spl_op rs rd immediate = do
  fp ← get_reg Reg.frame_pointer
  on_translated (sub64 fp (extend32 immediate)) λ translated. load_value rd translated Size.word

-- The address in `rd` is used as it is: it is not translated, and not tested for writing.
unfoldable pub copy_immediate : ℕ → ℕ → Size → M (Unit {0})
unfolding on_translated change_memory
copy_immediate rd address size = on_translated address λ translated. do
  value ← get translated size Endianness.little
  destination ← get_reg rd
  change_memory destination (converted size value) size
  increment

unfoldable pub lni_op : ℕ → ℕ → ℕ → M (Unit {0})
unfolding copy_immediate
lni_op rs rd immediate = copy_immediate rd (extend32 immediate) Size.word

unfoldable pub lbni_op : ℕ → ℕ → ℕ → M (Unit {0})
unfolding copy_immediate
lbni_op rs rd immediate = copy_immediate rd (extend32 immediate) Size.byte

unfoldable pub jrlc_op : ℕ → ℕ → ℕ → M (Unit {0})
unfolding on_translated
jrlc_op rs rt rd = do
  a ← get_reg rs
  address ← get_reg rd
  if a == 0 then increment else on_translated address (λ translated. jump translated true)
