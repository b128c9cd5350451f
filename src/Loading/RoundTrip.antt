-- ===== src/Loading/RoundTrip.antt =====
-- What the machine's memory holds after a program is loaded.
use why.Base.{
  ℕ, ◌+◌, ◌*◌, ◌^◌, ◌≤◌, ◌<◌, ◌≡◌, refl, sym, ap, ◌∙◌, inl, true, false, ltb, lt→ltb, List, [], ◌∷◌,
  ◌++◌, map, reverse, length, length-append, leb, arith, IsWord,
}
use native.Mathlib.Nat.{mod-eq_of_lt}
use why.Machine.Types.{Endianness}
use why.Machine.State.{Vm, Drive, ok, pure, modify, ◌>>=◌, update}
use why.Machine.Memory.{get_word, set_word, split_bytes, join_bytes, ordered}
use why.Machine.Memory.Bytes.{
  AreBytes-split_bytes, AreBytes-ordered, length-split_bytes, length-ordered, ordered-ordered,
  join-split_bytes, split-join_bytes,
}
use why.Machine.Memory.Access.{
  IsSized, bytes_at, overlay, with_memory, load_inside, store_inside, bytes_at-overlay,
  bytes_at_apart,
}
use why.Ops.Decode.{swap_endian}
use why.Object.Words.{get_bytes}
use why.Object.Words.Packing.{bytes_of, bytes_of-append, length-bytes_of}
use why.Object.Text.{stringify_long, stringify, scanned_value}
use why.Object.Text.Digits.{
  length-stringify_long, scan_ulong-stringify_long, swap_endian-IsWord, swap_endian_lem,
}
use why.Object.Text.RoundTrip.{get_lines-stringify}
use why.Loading.{load_lines, line_address, clear_memory, load_stream}

-- The bytes of a swapped word, from the highest, are those of the word.
swapped_bytes : (w : ℕ) → ordered Endianness.big (split_bytes 8 (swap_endian w)) ≡ split_bytes 8 w
unfolding ordered
swapped_bytes w =
    let bytes = split_bytes 8 w in
    let size = length-ordered Endianness.big bytes ∙ length-split_bytes 8 w in
    let back =
      split-join_bytes (reverse bytes)
        (AreBytes-ordered Endianness.big bytes (AreBytes-split_bytes 8 w)) in
    ap (λ (t : ℕ). reverse (split_bytes 8 t)) (swap_endian_lem w)
    ∙ ap reverse (rw size at back)
    ∙ ordered-ordered Endianness.big bytes

overlay-append :
    (xs ys : List ℕ) (i : ℕ) (f : ℕ → ℕ)
    → overlay (xs ++ ys) i f ≡ overlay ys (i + length xs) (overlay xs i f)
overlay-append [] ys i f = ap (λ (t : ℕ). overlay ys t f) (omega arith)
overlay-append (x ∷ xs) ys i f =
    let g = overlay xs (i + 1) (update f i x) in
    overlay-append xs ys (i + 1) (update f i x) ∙ ap (λ (t : ℕ). overlay ys t g) (omega arith)

set_word-swap_endian :
    (w i : ℕ) (vm : Vm)
    → IsSized vm
    → i + 8 ≤ vm.memory_size
    → set_word i (swap_endian w) Endianness.big vm
      ≡ ok tt (with_memory vm (overlay (split_bytes 8 w) i vm.memory))
unfolding set_word
set_word-swap_endian w i vm sized room =
    store_inside 7 i Endianness.big vm (omega arith) sized (swap_endian w) (omega arith)
    ∙ ap (λ (bs : List ℕ). ok tt (with_memory vm (overlay bs i vm.memory))) (swapped_bytes w)

load_line :
    (w n : ℕ) (lines : List (List ℕ)) (vm : Vm)
    → IsSized vm
    → 8 * n + 8 ≤ vm.memory_size
    → 8 * n < 2 ^ 31
    → load_lines (stringify_long w ∷ lines) n vm
      ≡ load_lines lines (n + 1) (with_memory vm (overlay (split_bytes 8 w) (8 * n) vm.memory))
unfolding load_lines line_address scanned_value pure ◌>>=◌
load_line w n lines vm sized room int =
    let no_overflow : ltb (8 * n) (2 ^ 31) ≡ true = lt→ltb (8 * n) (2 ^ 31) int in
    let small : leb (2 ^ 64) (swap_endian w) ≡ false = ground (arith, swap_endian-IsWord w) in
    let stored = set_word-swap_endian w (8 * n) vm sized (omega arith) in
    rw (scan_ulong-stringify_long w, length-stringify_long w, small, no_overflow, stored) refl

overlay_word :
    (w : ℕ) (longs : List ℕ) (n : ℕ) (f : ℕ → ℕ)
    → overlay (bytes_of (w ∷ longs)) (8 * n) f
      ≡ overlay (bytes_of longs) (8 * (n + 1)) (overlay (split_bytes 8 w) (8 * n) f)
unfolding get_bytes
overlay_word w longs n f =
    let next : 8 * n + length (split_bytes 8 w) ≡ 8 * (n + 1) =
      omega (arith, length-split_bytes 8 w) in
    let g = overlay (split_bytes 8 w) (8 * n) f in
    overlay-append (split_bytes 8 w) (bytes_of longs) (8 * n) f
    ∙ ap (λ (t : ℕ). overlay (bytes_of longs) t g) next

load_lines_lem :
    (longs : List ℕ) (n : ℕ) (vm : Vm)
    → IsSized vm
    → 8 * n + 8 * length longs ≤ vm.memory_size
    → 8 * n + 8 * length longs ≤ 2 ^ 31
    → load_lines (map stringify_long longs) n vm
      ≡ ok tt (with_memory vm (overlay (bytes_of longs) (8 * n) vm.memory))
load_lines_lem [] n vm sized room int = unfold load_lines in unfold pure in refl
load_lines_lem (w ∷ longs) n vm sized room int =
    let stored = with_memory vm (overlay (split_bytes 8 w) (8 * n) vm.memory) in
    let sized_after : IsSized stored = record {
      allocated = sized.allocated;
      size_fits = sized.size_fits;
    } in
    load_line w n (map stringify_long longs) vm sized (omega arith) (omega arith)
    ∙ load_lines_lem longs (n + 1) stored sized_after (omega arith) (omega arith)
    ∙ ap (λ (f : ℕ → ℕ). ok tt (with_memory vm f)) (sym (overlay_word w longs n vm.memory))

-- The machine after a text of some words is loaded.
abbrev pub loaded : List ℕ → List Drive → Vm → Vm
loaded longs opened vm = with_memory (clear_memory opened vm) (overlay (bytes_of longs) 0 (λ i. 0))

pub load_stream_lem :
    (longs : List ℕ) (opened : List Drive) (vm : Vm)
    → vm.memory_size < 2 ^ 62
    → 8 * length longs ≤ vm.memory_size
    → 8 * length longs ≤ 2 ^ 31
    → load_stream (stringify longs) opened vm ≡ ok tt (loaded longs opened vm)
unfolding load_stream clear_memory modify ◌>>=◌
load_stream_lem longs opened vm size room int = rw (get_lines-stringify longs) (
    load_lines_lem longs 0 (clear_memory opened vm) (record { allocated = refl; size_fits = size })
      (omega arith) (omega arith))

length-get_bytes : (w : ℕ) → length (get_bytes w) ≡ 8
unfolding get_bytes
length-get_bytes w = length-split_bytes 8 w

join_bytes-get_bytes : (w : ℕ) → IsWord w → join_bytes (ordered Endianness.little (get_bytes w)) ≡ w
unfolding get_bytes ordered
join_bytes-get_bytes w h = join-split_bytes 8 w ∙ mod-eq_of_lt h

bytes_at-word :
    (before after : List ℕ) (w : ℕ) (f : ℕ → ℕ)
    → bytes_at 8 (8 * length before) (overlay (bytes_of (before ++ (w ∷ after))) 0 f) ≡ get_bytes w
bytes_at-word before after w f =
    let pre = bytes_of before in
    let x = get_bytes w in
    let post = bytes_of after in
    let p = 0 + length pre in
    let g = overlay x p (overlay pre 0 f) in
    let size : length x ≡ 8 = length-get_bytes w in
    let start : 8 * length before ≡ p = omega (arith, length-bytes_of before) in
    let split : overlay (bytes_of (before ++ (w ∷ after))) 0 f ≡ overlay post (p + length x) g =
      ap (λ (bs : List ℕ). overlay bs 0 f) (bytes_of-append before (w ∷ after))
      ∙ overlay-append pre (x ++ post) 0 f
      ∙ overlay-append x post p (overlay pre 0 f) in
    let read : bytes_at (length x) p g ≡ x = bytes_at-overlay x p (overlay pre 0 f) in
    rw (split, start)
      (bytes_at_apart 8 p (p + length x) post g (inl (omega arith)) ∙ rw size at read)

-- The memory holds some words from its start on, and zeros after them.
abbrev pub HoldsWords : List ℕ → Vm → Type 0
HoldsWords longs vm = (vm.memory ≡ overlay (bytes_of longs) 0 (λ i. 0)) × IsSized vm

pub get_word-HoldsWords :
    (before after : List ℕ) (w : ℕ) (vm : Vm)
    → HoldsWords (before ++ (w ∷ after)) vm
    → 8 * length (before ++ (w ∷ after)) ≤ vm.memory_size
    → IsWord w
    → get_word (8 * length before) Endianness.little vm ≡ ok w vm
unfolding get_word
get_word-HoldsWords before after w vm (holds, sized) room word =
    let inside = length-append before (w ∷ after) in
    let value =
      ap (λ (f : ℕ → ℕ). join_bytes (ordered Endianness.little (bytes_at 8 (8 * length before) f)))
        holds
      ∙ ap (λ (bs : List ℕ). join_bytes (ordered Endianness.little bs))
          (bytes_at-word before after w (λ i. 0))
      ∙ join_bytes-get_bytes w word in
    load_inside 7 (8 * length before) Endianness.little vm (omega arith) sized (omega arith)
    ∙ ap (λ (n : ℕ). ok n vm) value

pub loaded-HoldsWords :
    (longs : List ℕ) (opened : List Drive) (vm : Vm)
    → vm.memory_size < 2 ^ 62
    → HoldsWords longs (loaded longs opened vm)
unfolding clear_memory
loaded-HoldsWords longs opened vm size = (refl, record { allocated = refl; size_fits = size })

pub loaded-memory_size :
    (longs : List ℕ) (opened : List Drive) (vm : Vm)
    → (loaded longs opened vm).memory_size ≡ vm.memory_size
unfolding clear_memory
loaded-memory_size longs opened vm = refl

-- Words that assembler or linker print, at most 2 ^ 28 of them, are loaded, if they fit in the memory,
-- and the machine then reads each of them, in little-endian order, at eight times its place.
pub get_word-load_stream :
    (before after : List ℕ) (w : ℕ) (opened : List Drive) (vm : Vm)
    → vm.memory_size < 2 ^ 62
    → 8 * length (before ++ (w ∷ after)) ≤ vm.memory_size
    → 8 * length (before ++ (w ∷ after)) ≤ 2 ^ 31
    → IsWord w
    → (loaded_vm : Vm) × (load_stream (stringify (before ++ (w ∷ after))) opened vm
        ≡ ok tt loaded_vm)
      × (get_word (8 * length before) Endianness.little loaded_vm ≡ ok w loaded_vm)
get_word-load_stream before after w opened vm size room int word =
    let longs = before ++ (w ∷ after) in
    let fits : 8 * length longs ≤ (loaded longs opened vm).memory_size =
      omega (arith, loaded-memory_size longs opened vm) in
    (
      loaded longs opened vm,
      load_stream_lem longs opened vm size room int,
      get_word-HoldsWords before after w (loaded longs opened vm)
          (loaded-HoldsWords longs opened vm size) fits word,
    )
