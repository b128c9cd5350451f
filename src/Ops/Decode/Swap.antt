-- ===== src/Ops/Decode/Swap.antt =====
-- The order of the bytes of an instruction word: Util::swapEndian.
use why.Base.{ℕ, ◌≡◌, refl, sym, ap, ◌∙◌, List, length, IsWord, arith}
use native.Mathlib.Nat.{mod-eq_of_lt}
use why.Machine.Types.{Endianness}
use why.Machine.State.{Vm, ok}
use why.Machine.Memory.{get_word, ordered, split_bytes, join_bytes}
use why.Machine.Memory.Bytes.{
  AreBytes, length-split_bytes, AreBytes-split_bytes, join-split_bytes, split-join_bytes,
  length-ordered, ordered-ordered, AreBytes-ordered,
}
use why.Machine.Memory.Access.{
  IsSized, HoldsBytes, InMemory, bytes_at, load_inside, AreBytes-bytes_at, length-bytes_at,
}
use why.Ops.Decode.{swap_endian}

swap_endian-ordered :
    (n : ℕ) → swap_endian n ≡ join_bytes (ordered Endianness.big (split_bytes 8 n))
unfolding swap_endian ordered
swap_endian-ordered n = refl

-- Swapping the word of eight bytes in one order gives their word in the other.
swap-join_bytes :
    (bs : List ℕ)
    → AreBytes bs
    → length bs ≡ 8
    → swap_endian (join_bytes bs) ≡ join_bytes (ordered Endianness.big bs)
swap-join_bytes bs h len =
    swap_endian-ordered (join_bytes bs)
    ∙ ap (λ n. join_bytes (ordered Endianness.big (split_bytes n (join_bytes bs)))) (sym len)
    ∙ ap (λ cs. join_bytes (ordered Endianness.big cs)) (split-join_bytes bs h)

-- Swapping the bytes of a word twice gives the word back.
pub swap_endian-swap_endian : (n : ℕ) → IsWord n → swap_endian (swap_endian n) ≡ n
swap_endian-swap_endian n w =
    ap swap_endian (swap_endian-ordered n)
    ∙ swap-join_bytes swapped (AreBytes-ordered Endianness.big _ (AreBytes-split_bytes 8 n))
        (length-ordered Endianness.big _ ∙ length-split_bytes 8 n)
    ∙ ap join_bytes (ordered-ordered Endianness.big (split_bytes 8 n))
    ∙ join-split_bytes 8 n
    ∙ mod-eq_of_lt w
  where
    swapped : List ℕ
    swapped = ordered Endianness.big (split_bytes 8 n)

-- On a machine whose vector has its size and holds bytes, a word in memory is read in both orders, and
-- what is read in big-endian order is, with its bytes swapped, what is read in little-endian order.
pub get_word-swap_endian :
    (vm : Vm) (address : ℕ)
    → IsSized vm
    → HoldsBytes vm
    → InMemory 7 address vm
    → (w : ℕ) × (get_word address Endianness.big vm ≡ ok w vm)
      × (get_word address Endianness.little vm ≡ ok (swap_endian w) vm)
unfolding get_word ordered
get_word-swap_endian vm address sized bytes inside = (
  join_bytes (ordered Endianness.big found),
  load_inside 7 address Endianness.big vm (omega arith) sized inside,
  load_inside 7 address Endianness.little vm (omega arith) sized inside
      ∙ ap (λ v. ok v vm) (sym swapped),
)
  where
    found : List ℕ
    found = bytes_at 8 address vm.memory

    are_bytes : AreBytes found
    are_bytes = AreBytes-bytes_at 8 address vm.memory bytes

    swapped :
        swap_endian (join_bytes (ordered Endianness.big found))
        ≡ join_bytes (ordered Endianness.little found)
    swapped =
        swap-join_bytes (ordered Endianness.big found)
          (AreBytes-ordered Endianness.big found are_bytes)
          (length-ordered Endianness.big found ∙ length-bytes_at 8 address vm.memory)
        ∙ ap join_bytes (ordered-ordered Endianness.big found)
