-- ===== src/Tests/System.antt =====
-- A privileged instruction, pgon, in the least privileged ring.
use why.Base.{ℕ, ◌≡◌, refl, arith}
use why.Machine.State.{Vm}
use why.Machine.Ensures.{Any, Post}
use why.Ops.Decode.{swap_endian, decode_opcode, decode_r}
use why.Machine.Memory.{split_bytes, join_bytes}
use why.Ops.Execute.{execute}
use why.Ops.System.Protected.{Protected}
use why.Ops.System.Privileged.{Encodes, pgon, refused, execute-privileged}
use why.Tests.{machine}

abbrev user : Vm
user = record machine { ring = 3 }

-- The opcode 61 and the function code 1.
abbrev pgon_word : ℕ
pgon_word = 72057594037981187

pgon_word-Encodes : Encodes pgon pgon_word
unfolding swap_endian decode_opcode decode_r split_bytes join_bytes
pgon_word-Encodes = (refl, refl)

execute-privileged_example :
    (execute pgon_word user ≡ refused user) × Post (Protected user) Any (execute pgon_word user)
execute-privileged_example = execute-privileged pgon pgon_word user pgon_word-Encodes (omega arith)
