-- ===== src/Loading/Start.antt =====
-- The machine when a program is loaded for the first time.
use why.Base.{
  ℕ, ◌-◌, ◌*◌, ◌^◌, ◌≤◌, ◌<◌, ◌≡◌, refl, List, [], ◌∷◌, ◌++◌, length, arith, IsWord, All,
}
use why.Machine.State.{Vm, Drive, ok, pure, modify, gets, put_reg, update, ◌>>=◌}
use why.Machine.Reg.{global_area_pointer, stack_pointer}
use why.Object.Text.{stringify}
use why.Loading.{Offsets, default_offset, default_code_offset, init_offsets, load_stream}
use why.Loading.RoundTrip.{
  HoldsWords, get_word-HoldsWords, loaded, loaded-HoldsWords, loaded-memory_size, load_stream_lem,
}

abbrev pub unset : Offsets
unset = record {
  code_offset = 18446744073709551615;
  data_offset = 18446744073709551615;
  symbols_offset = 18446744073709551615;
  debug_offset = 18446744073709551615;
  relocation_offset = 18446744073709551615;
  end_offset = 18446744073709551615;
}

-- The six words at the head of a program.
abbrev pub head : Offsets → List ℕ → List ℕ
head o rest =
    o.code_offset
    ∷ (o.data_offset
        ∷ (o.symbols_offset ∷ (o.debug_offset ∷ (o.relocation_offset ∷ (o.end_offset ∷ rest)))))

-- The machine at the program's start.
abbrev pub started : Offsets → Vm → Vm
started o vm = record vm {
  program_counter = o.code_offset;
  registers =
      update (update vm.registers global_area_pointer o.end_offset) stack_pointer vm.memory_size;
}

default_offset_lem :
    (before after : List ℕ) (w : ℕ) (vm : Vm)
    → HoldsWords (before ++ (w ∷ after)) vm
    → 8 * length (before ++ (w ∷ after)) ≤ vm.memory_size
    → IsWord w
    → default_offset (2 ^ 64 - 1) (8 * length before) vm ≡ ok w vm
unfolding default_offset
default_offset_lem before after w vm holds room word =
    get_word-HoldsWords before after w vm holds room word

default_code_offset_lem :
    (after : List ℕ) (w : ℕ) (vm : Vm)
    → HoldsWords (w ∷ after) vm
    → 8 * length (w ∷ after) ≤ vm.memory_size
    → IsWord w
    → default_code_offset (2 ^ 64 - 1) vm ≡ ok w (record vm { program_counter = w })
unfolding default_code_offset modify pure ◌>>=◌
default_code_offset_lem after w vm holds room word =
    rw (get_word-HoldsWords [] after w vm holds room word) refl

-- The program's head is read into the offsets, the program counter and the registers.
init_offsets_lem :
    (o : Offsets) (rest : List ℕ) (vm : Vm)
    → All IsWord (head o [])
    → HoldsWords (head o rest) vm
    → 8 * length (head o rest) ≤ vm.memory_size
    → init_offsets unset vm ≡ ok o (started o vm)
unfolding init_offsets put_reg modify gets pure ◌>>=◌
init_offsets_lem o rest vm words holds room =
    let (w0, (w1, (w2, (w3, (w4, (w5, _)))))) = words in
    let at_start : Vm = record vm { program_counter = o.code_offset } in
    let holds_there : HoldsWords (head o rest) at_start =
      (holds.0, record { allocated = holds.1.allocated; size_fits = holds.1.size_fits }) in
    let o0 = o.code_offset in
    let o1 = o.data_offset in
    let o2 = o.symbols_offset in
    let o3 = o.debug_offset in
    let o4 = o.relocation_offset in
    let o5 = o.end_offset in
    let tail1 = o1 ∷ (o2 ∷ (o3 ∷ (o4 ∷ (o5 ∷ rest)))) in
    let three = o0 ∷ (o1 ∷ (o2 ∷ [])) in
    rw
      (
        default_code_offset_lem tail1 o0 vm holds room w0,
        default_offset_lem (o0 ∷ []) (o2 ∷ (o3 ∷ (o4 ∷ (o5 ∷ rest)))) o1 at_start holds_there room
            w1,
        default_offset_lem (o0 ∷ (o1 ∷ [])) (o3 ∷ (o4 ∷ (o5 ∷ rest))) o2 at_start holds_there room
            w2,
        default_offset_lem three (o4 ∷ (o5 ∷ rest)) o3 at_start holds_there room w3,
        default_offset_lem (three ++ (o3 ∷ [])) (o5 ∷ rest) o4 at_start holds_there room w4,
        default_offset_lem (three ++ (o3 ∷ (o4 ∷ []))) rest o5 at_start holds_there room w5,
      )
      refl

-- Words that start with six offsets, at most 2 ^ 28 of them, when they are loaded for the first time, start the machine: the
-- offsets are those words, the program counter is at the code, the global area starts at the end of
-- the program, and the stack at the end of the memory.
pub init_offsets-load_stream :
    (o : Offsets) (rest : List ℕ) (opened : List Drive) (vm : Vm)
    → All IsWord (head o [])
    → vm.memory_size < 2 ^ 62
    → 8 * length (head o rest) ≤ vm.memory_size
    → 8 * length (head o rest) ≤ 2 ^ 31
    → (load_stream (stringify (head o rest)) opened >>= λ _. init_offsets unset) vm
      ≡ ok o (started o (loaded (head o rest) opened vm))
unfolding ◌>>=◌
init_offsets-load_stream o rest opened vm words size room int =
    let after = loaded (head o rest) opened vm in
    let fits : 8 * length (head o rest) ≤ after.memory_size =
      omega (arith, loaded-memory_size (head o rest) opened vm) in
    rw (load_stream_lem (head o rest) opened vm size room int)
      (init_offsets_lem o rest after words (loaded-HoldsWords (head o rest) opened vm size) fits)
