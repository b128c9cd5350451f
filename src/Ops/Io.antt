-- ===== src/Ops/Io.antt =====
-- ioOp of wvm/src/Operations.cpp. The operating system is the field `host` of the machine: its n-th
-- value answers the n-th system call, and `host_calls` lists the calls made, newest first.
use why.Base.{
  ℕ, ◌+◌, ◌-◌, ◌%◌, ◌^◌, Bool, true, false, not, ◌&&◌, Option, none, some, List, [], ◌∷◌, ◌++◌,
  zero, suc, length, leb, ◌==◌, if◌then◌else◌, add64, sub64, min, drop, take, get_elem?,
  is_negative,
}
use why.Machine.Reg
use why.Machine.State.{
  M, pure, fault, gets, modify, ◌>>=◌, ◌>>◌, when, get_reg, Reply, HostCall, Drive,
}
use why.Machine.Memory.{read_bytes, write_bytes}
use why.Machine.Paging.{translate_address}
use why.Machine.Control.{set_reg, increment, check_writable, int_pfault, int_bwrite}
use why.Ops.System.{privileged}

-- One system call.
unfoldable pub call_host : HostCall → M Reply
call_host request = do
  reply ← gets (λ vm. vm.host (length vm.host_calls))
  modify (λ vm. record vm { host_calls = request ∷ vm.host_calls })
  pure reply

-- SEEK_SET, SEEK_CUR and SEEK_END.
abbrev seek_set : ℕ
seek_set = 0

abbrev seek_cur : ℕ
seek_cur = 1

abbrev seek_end : ℕ
seek_end = 2

abbrev page_size : ℕ
page_size = 65536

-- -1 as a ssize_t.
abbrev pub minus_one : ℕ
minus_one = 2 ^ 64 - 1

-- `$e0 = value`, `$r0 = value`.
unfoldable pub set_e0 : ℕ → M (Unit {0})
set_e0 value = set_reg Reg.exception value false

unfoldable pub set_r0 : ℕ → M (Unit {0})
set_r0 value = set_reg Reg.return_value value false

-- `std::min(mod ? mod : PAGE_SIZE, remaining)`.
unfoldable pub chunk : ℕ → ℕ → ℕ
chunk address remaining =
    let within = address % page_size in min (if within == 0 then page_size else within) remaining

-- The head of a round of the three loops: a fault ends the instruction, `none`; the end of memory
-- ends the loop, `some total`; else `k` gets the physical address and what still fits.
unfoldable pub round_at : Bool → ℕ → ℕ → ℕ → (ℕ → ℕ → M (Option ℕ)) → M (Option ℕ)
unfolding set_e0
round_at must_write address remaining total k = do
  (translated, success) ← translate_address address
  writable ← check_writable
  memsize ← gets (λ vm. vm.memory_size)
  if not success
      then (do set_e0 2; _ ← int_pfault; pure none)
      else if must_write && not writable
      then (do set_e0 3; _ ← int_bwrite translated; pure none)
      else if leb memsize translated
      then pure (some total)
      else k translated (min (memsize - translated) remaining)

-- The loop of IO_READ. Every round reads at least one byte, so that the fuel, which is the number of
-- bytes asked for, suffices for a host that never reads more than it is asked to.
unfoldable pub read_loop : ℕ → ℕ → ℕ → ℕ → ℕ → M (Option ℕ)
unfolding call_host chunk round_at set_e0
read_loop zero fd address remaining total = if remaining == 0 then pure (some total) else fault
read_loop (suc fuel) fd address remaining total =
    let round = round_at true address remaining total λ translated room. do
      reply ← call_host (HostCall.read_file fd (chunk address room))
      let go_on = do
        write_bytes (take reply.result reply.bytes) translated
        read_loop fuel fd (add64 address reply.result) (sub64 room reply.result)
            (add64 total reply.result)
      if is_negative reply.result
          then (do set_e0 (reply.errno + 3); pure (some total))
          else if reply.result == 0
          then pure (some total)
          else go_on
    in if remaining == 0 then pure (some total) else round

-- The loop of IO_WRITE.
unfoldable pub write_loop : ℕ → ℕ → ℕ → ℕ → ℕ → M (Option ℕ)
unfolding call_host chunk round_at set_e0
write_loop zero fd address remaining total = if remaining == 0 then pure (some total) else fault
write_loop (suc fuel) fd address remaining total =
    let round = round_at false address remaining total λ translated room. do
      contents ← read_bytes (chunk address room) translated
      reply ← call_host (HostCall.write_file fd contents)
      let go_on =
          write_loop fuel fd (add64 address reply.result) (sub64 room reply.result)
            (add64 total reply.result)
      if is_negative reply.result
          then (do set_e0 (reply.errno + 2); pure (some total))
          else if reply.result == 0
          then pure (some total)
          else go_on
    in if remaining == 0 then pure (some total) else round

-- The loop of IO_GETNAME; `name` is what is left of the C string, its null byte included.
unfoldable pub name_loop : ℕ → List ℕ → ℕ → ℕ → ℕ → M (Option ℕ)
unfolding chunk round_at
name_loop zero name address remaining total = if remaining == 0 then pure (some total) else fault
name_loop (suc fuel) name address remaining total =
    let round = round_at true address remaining total λ translated room. do
      let count = chunk address room
      write_bytes (take count name) translated
      name_loop fuel (drop count name) (add64 address count) (room - count) (add64 total count)
    in if remaining == 0 then pure (some total) else round

-- What follows a loop: `$r0` is set if the loop came to its end. The answer says whether to go on.
unfoldable pub finish_loop : (ℕ → ℕ) → Option ℕ → M Bool
unfolding set_r0
finish_loop f none = pure false
finish_loop f (some total) = do set_r0 (f total); pure true

unfoldable pub io_seekabs : Drive → ℕ → M Bool
unfolding call_host set_e0
io_seekabs drive offset = do
  reply ← call_host (HostCall.lseek drive.fd offset seek_set)
  set_e0 (if reply.result == minus_one then 2 else 0)
  pure true

unfoldable pub io_seekrel : Drive → ℕ → M Bool
unfolding call_host set_e0 set_r0
io_seekrel drive offset = do
  reply ← call_host (HostCall.lseek drive.fd offset seek_cur)
  if reply.result == minus_one then set_e0 2 else (do set_e0 0; set_r0 reply.result)
  pure true

unfoldable pub io_read : Drive → ℕ → ℕ → M Bool
unfolding read_loop finish_loop set_e0
io_read drive address count = do
  set_e0 0
  total ← read_loop count drive.fd address count 0
  finish_loop (λ n. n) total

unfoldable pub io_write : Drive → ℕ → ℕ → M Bool
unfolding write_loop finish_loop set_e0
io_write drive address count = do
  set_e0 0
  total ← write_loop count drive.fd address count 0
  finish_loop (λ n. n) total

unfoldable pub io_getsize : Drive → M Bool
unfolding call_host set_e0 set_r0
io_getsize drive = do
  old ← call_host (HostCall.lseek drive.fd 0 seek_cur)
  let restore = λ (end : Reply). do
    set_r0 end.result
    back ← call_host (HostCall.lseek drive.fd old.result seek_set)
    set_e0 (if back.result == minus_one then back.errno + 1 else 0)
  let measure = do
    end ← call_host (HostCall.lseek drive.fd 0 seek_end)
    if end.result == minus_one then set_e0 (end.errno + 1) else restore end
  if old.result == minus_one then set_e0 (old.errno + 1) else measure
  pure true

unfoldable pub io_getcursor : Drive → M Bool
unfolding call_host set_e0 set_r0
io_getcursor drive = do
  reply ← call_host (HostCall.lseek drive.fd 0 seek_cur)
  set_e0 (if reply.result == minus_one then reply.errno + 1 else 0)
  when (not (reply.result == minus_one)) (set_r0 reply.result)
  pure true

-- The number of bytes is bounded by $a2, which is also the address.
unfoldable pub io_getname : Drive → ℕ → M Bool
unfolding name_loop finish_loop set_e0
io_getname drive a2 = do
  set_e0 0
  let count = min a2 (length drive.name + 1)
  total ← name_loop count (drive.name ++ 0 ∷ []) a2 count 0
  finish_loop (λ n. n - 1) total

-- `!valid_id`.
unfoldable pub with_drive : Option Drive → (Drive → M Bool) → M Bool
unfolding set_e0
with_drive none k = do set_e0 1; pure true
with_drive (some drive) k = k drive

unfoldable pub io_devcount : M Bool
unfolding set_e0 set_r0
io_devcount = do count ← gets (λ vm. length vm.drives); set_e0 0; set_r0 count; pure true

-- The switch over $a0, with the drive of $a1.
unfoldable pub io_request : ℕ → Option Drive → ℕ → ℕ → M Bool
unfolding io_devcount with_drive io_seekabs io_seekrel io_read io_write io_getsize io_getcursor
    io_getname
io_request a0 drive a2 a3 =
    if a0 == 0
    then io_devcount
    else if a0 == 1
    then with_drive drive (λ d. io_seekabs d a2)
    else if a0 == 2
    then with_drive drive (λ d. io_seekrel d a2)
    else if a0 == 3
    then with_drive drive (λ d. io_read d a2 a3)
    else if a0 == 4
    then with_drive drive (λ d. io_write d a2 a3)
    else if a0 == 5
    then with_drive drive io_getsize
    else if a0 == 6
    then with_drive drive io_getcursor
    else if a0 == 7
    then with_drive drive (λ d. io_getname d a2)
    else (do set_e0 666; pure true)

unfoldable pub io_op : ℕ → ℕ → ℕ → M (Unit {0})
unfolding privileged io_request
io_op rs rt rd = privileged 2 do
  a0 ← get_reg Reg.argument
  a1 ← get_reg (Reg.argument + 1)
  a2 ← get_reg (Reg.argument + 2)
  a3 ← get_reg (Reg.argument + 3)
  drive ← gets (λ vm. get_elem? vm.drives a1)
  done ← io_request a0 drive a2 a3
  when done increment
