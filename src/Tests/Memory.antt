-- ===== src/Tests/Memory.antt =====
-- The theorems on memory at concrete accesses.
use why.Base.{ℕ, ◌%◌, ◌≡◌, inl, arith}
use why.Machine.Types.{Size, Endianness}
use why.Machine.State.{Vm, Exn, ok, throws, undefined}
use why.Machine.Memory.{get, set}
use why.Machine.Memory.Bytes.{span_mod}
use why.Machine.Memory.RoundTrip.{get-set_self, get-set_apart}
use why.Machine.Memory.Bounds.{get-out_of_bounds, get_past_the_end}
use why.Tests.{machine, machine-IsSized}

get-set_self_example :
    (written : Vm) × (set 16 1000 Size.word Endianness.little machine ≡ ok tt written)
    × (get 16 Size.word Endianness.little written ≡ ok (1000 % span_mod 8) written)
get-set_self_example =
    get-set_self machine machine-IsSized 16 Size.word Endianness.little (omega arith) 1000

get-set_apart_example :
    (written : Vm) × (v : ℕ) × (set 16 1000 Size.word Endianness.little machine ≡ ok tt written)
    × (get 24 Size.byte Endianness.big machine ≡ ok v machine)
    × (get 24 Size.byte Endianness.big written ≡ ok v written)
get-set_apart_example =
    get-set_apart machine 16 24 1000 Size.word Size.byte Endianness.little Endianness.big
      machine-IsSized (omega arith) (omega arith) (inl (omega arith))

get-out_of_bounds_example :
    get 80 Size.word Endianness.big machine ≡ throws Exn.out_of_bounds machine
get-out_of_bounds_example =
    get-out_of_bounds machine 80 Size.word Endianness.big machine-IsSized (omega arith)
      (omega arith)

get_past_the_end_example : get 64 Size.word Endianness.big machine ≡ undefined
get_past_the_end_example =
    get_past_the_end machine 64 Size.word Endianness.big machine-IsSized (omega arith) (omega arith)
