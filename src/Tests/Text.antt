-- ===== src/Tests/Text.antt =====
-- The theorems on the text of objects, and on its loading, at concrete values.
use why.Base.{ℕ, ◌*◌, ◌≡◌, List, [], ◌∷◌, ◌++◌, length, arith}
use why.Machine.Types.{Endianness}
use why.Machine.State.{Vm, ok, ◌>>=◌}
use why.Machine.Memory.{get_word}
use why.Object.Result.{done}
use why.Object.Text.{stringify, get_lines, read_longs}
use why.Object.Text.RoundTrip.{read_longs-stringify}
use why.Loading.{Offsets, init_offsets, load_stream}
use why.Loading.RoundTrip.{loaded, get_word-load_stream}
use why.Loading.Start.{unset, head, started, init_offsets-load_stream}
use why.Tests.{machine}

abbrev three_words : List ℕ
three_words = 258 ∷ (18446744073709551615 ∷ (0 ∷ []))

read_longs-stringify_example : read_longs (get_lines (stringify three_words)) ≡ done three_words
read_longs-stringify_example = read_longs-stringify three_words (omega arith)

abbrev before : List ℕ
before = 5 ∷ []

get_word-load_stream_example :
    (loaded_vm : Vm) × (load_stream (stringify (before ++ (258 ∷ (7 ∷ [])))) [] machine
      ≡ ok tt loaded_vm)
    × (get_word (8 * length before) Endianness.little loaded_vm ≡ ok 258 loaded_vm)
get_word-load_stream_example =
    get_word-load_stream before (7 ∷ []) 258 [] machine (omega arith) (omega arith) (omega arith)
      (omega arith)

abbrev small_program : Offsets
small_program = record {
  code_offset = 48;
  data_offset = 56;
  symbols_offset = 56;
  debug_offset = 56;
  relocation_offset = 56;
  end_offset = 56;
}

init_offsets-load_stream_example :
    (load_stream (stringify (head small_program (0 ∷ []))) [] >>= λ _. init_offsets unset) machine
    ≡ ok small_program (started small_program (loaded (head small_program (0 ∷ [])) [] machine))
init_offsets-load_stream_example =
    init_offsets-load_stream small_program (0 ∷ []) [] machine (omega arith) (omega arith)
      (omega arith) (omega arith)
