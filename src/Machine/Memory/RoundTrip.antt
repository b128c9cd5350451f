-- ===== src/Machine/Memory/RoundTrip.antt =====
-- Storing and loading, for every size and byte order: VM::get and VM::set.
use why.Base.{ℕ, suc, ◌+◌, ◌%◌, ◌<◌, ◌≡◌, ◌⊎◌, refl, sym, ap, ◌∙◌, List, length, arith}
use why.Machine.Types.{Size, Endianness}
use why.Machine.State.{Vm, ok}
use why.Machine.Memory.{get, set, load, store, ordered, split_bytes, join_bytes}
use why.Machine.Memory.Bytes.{
  AreBytes, span_mod, length-split_bytes, join-split_bytes, split-join_bytes, length-ordered,
  ordered-ordered, AreBytes-ordered,
}
use why.Machine.Memory.Access.{
  IsSized, HoldsBytes, InMemory, bytes_at, overlay, with_memory, load_inside, store_inside,
  bytes_at-overlay, overlay_restores, AreBytes-bytes_at, bytes_at_apart, length-bytes_at,
}

-- One less than the number of bytes of a size.
abbrev pub span_of : Size → ℕ
span_of Size.byte = 0
span_of Size.qword = 1
span_of Size.hword = 3
span_of Size.word = 7

pub span_small : (size : Size) → span_of size < 8
span_small Size.byte = omega arith
span_small _ = omega arith

-- The byte order of a single byte does not matter, so `get` and `set` are `load` and `store`.
pub order_of : Size → Endianness → Endianness
order_of Size.byte e = Endianness.little
order_of _ e = e

pub get-load :
    (address : ℕ) (size : Size) (e : Endianness)
    → get address size e ≡ load (span_of size) address (order_of size e)
unfolding get order_of
get-load address Size.byte e = refl
get-load address _ e = refl

pub set-store :
    (address value : ℕ) (size : Size) (e : Endianness)
    → set address value size e ≡ store (span_of size) address value (order_of size e)
unfolding set order_of
set-store address value Size.byte e = refl
set-store address value _ e = refl

module _ (vm : Vm) (sized : IsSized vm) (address : ℕ) (size : Size) (e : Endianness)
    (inside : InMemory (span_of size) address vm) where
  abbrev laid : ℕ → List ℕ
  laid value = ordered (order_of size e) (split_bytes (suc (span_of size)) value)

  length-laid : (value : ℕ) → length (laid value) ≡ suc (span_of size)
  length-laid value =
      length-ordered (order_of size e) (split_bytes (suc (span_of size)) value)
      ∙ length-split_bytes (suc (span_of size)) value

  abbrev pub after_set : ℕ → Vm
  after_set value = with_memory vm (overlay (laid value) address vm.memory)

  -- A write within the memory returns, and changes the memory only.
  pub set_lem : (value : ℕ) → set address value size e vm ≡ ok tt (after_set value)
  set_lem value =
      ap (λ m. m vm) (set-store address value size e)
      ∙ store_inside (span_of size) address (order_of size e) vm (span_small size) sized value
          inside

  abbrev pub got : ℕ
  got = join_bytes (ordered (order_of size e) (bytes_at (suc (span_of size)) address vm.memory))

  pub get_lem : get address size e vm ≡ ok got vm
  get_lem =
      ap (λ m. m vm) (get-load address size e)
      ∙ load_inside (span_of size) address (order_of size e) vm (span_small size) sized inside

  pub get-after_set :
      (value : ℕ)
      → get address size e (after_set value)
        ≡ ok (value % span_mod (suc (span_of size))) (after_set value)
  get-after_set value = reads ∙ ap (λ v. ok v (after_set value)) reads_back
    where
      sized' : IsSized (after_set value)
      sized' = record { allocated = sized.allocated; size_fits = sized.size_fits }

      found : List ℕ
      found = bytes_at (suc (span_of size)) address (overlay (laid value) address vm.memory)

      reads :
          get address size e (after_set value)
          ≡ ok (join_bytes (ordered (order_of size e) found)) (after_set value)
      reads =
          ap (λ m. m (after_set value)) (get-load address size e)
          ∙ load_inside (span_of size) address (order_of size e) (after_set value) (span_small size)
              sized' inside

      found_laid : found ≡ laid value
      found_laid = rw (length-laid value) at (bytes_at-overlay (laid value) address vm.memory)

      reads_back :
          join_bytes (ordered (order_of size e) found) ≡ value % span_mod (suc (span_of size))
      reads_back =
          ap (λ bs. join_bytes (ordered (order_of size e) bs)) found_laid
          ∙ ap join_bytes
              (ordered-ordered (order_of size e) (split_bytes (suc (span_of size)) value))
          ∙ join-split_bytes (suc (span_of size)) value

  -- A value that was written reads back in the same byte order, cut to the size that was written.
  pub get-set_self :
      (value : ℕ)
      → (written : Vm) × (set address value size e vm ≡ ok tt written)
        × (get address size e written ≡ ok (value % span_mod (suc (span_of size))) written)
  get-set_self value = (after_set value, set_lem value, get-after_set value)

  module _ (bytes : HoldsBytes vm) where
    old_bytes : laid got ≡ bytes_at (suc (span_of size)) address vm.memory
    old_bytes = splits_back ∙ ordered-ordered (order_of size e) found
      where
        found : List ℕ
        found = bytes_at (suc (span_of size)) address vm.memory

        found_len : length (ordered (order_of size e) found) ≡ suc (span_of size)
        found_len =
            length-ordered (order_of size e) found
            ∙ length-bytes_at (suc (span_of size)) address vm.memory

        found_bytes : AreBytes (ordered (order_of size e) found)
        found_bytes =
            AreBytes-ordered (order_of size e) found
              (AreBytes-bytes_at (suc (span_of size)) address vm.memory bytes)

        splits_back : laid got ≡ ordered (order_of size e) (ordered (order_of size e) found)
        splits_back = ap (ordered (order_of size e)) (
            ap (λ n. split_bytes n got) (sym found_len)
            ∙ split-join_bytes (ordered (order_of size e) found) found_bytes)

    -- Writing the old value back undoes a write: the machine is the one before it.
    pub set-got : (value : ℕ) → set address got size e (after_set value) ≡ ok tt vm
    set-got value =
        ap (λ m. m (after_set value)) (set-store address got size e)
        ∙ store_inside (span_of size) address (order_of size e) (after_set value) (span_small size)
            sized' got inside
        ∙ ap (λ f. ok tt (with_memory vm f)) restored
      where
        sized' : IsSized (after_set value)
        sized' = record { allocated = sized.allocated; size_fits = sized.size_fits }

        restored : overlay (laid got) address (overlay (laid value) address vm.memory) ≡ vm.memory
        restored =
            ap (λ bs. overlay bs address (overlay (laid value) address vm.memory)) old_bytes
            ∙ overlay_restores (laid value) (suc (span_of size)) address vm.memory
                (length-laid value)

-- A write does not change what is read from bytes that it does not touch.
pub get-set_apart :
    (vm : Vm) (a b value : ℕ) (s t : Size) (e f : Endianness)
    → IsSized vm
    → InMemory (span_of s) a vm
    → InMemory (span_of t) b vm
    → (a + span_of s < b) ⊎ (b + span_of t < a)
    → (written : Vm) × (v : ℕ) × (set a value s e vm ≡ ok tt written)
      × (get b t f vm ≡ ok v vm)
      × (get b t f written ≡ ok v written)
get-set_apart vm a b value s t e f sized in_a in_b apart = (
  after,
  got vm sized b t f in_b,
  set_lem vm sized a s e in_a value,
  get_lem vm sized b t f in_b,
  get_lem after sized' b t f in_b
      ∙ ap (λ bs. ok (join_bytes (ordered (order_of t f) bs)) after) unchanged,
)
  where
    after : Vm
    after = after_set vm sized a s e in_a value

    sized' : IsSized after
    sized' = record { allocated = sized.allocated; size_fits = sized.size_fits }

    bs : List ℕ
    bs = laid vm sized a s e in_a value

    unchanged :
        bytes_at (suc (span_of t)) b (overlay bs a vm.memory)
        ≡ bytes_at (suc (span_of t)) b vm.memory
    unchanged =
        bytes_at_apart (suc (span_of t)) b a bs vm.memory
          (omega (arith, length-laid vm sized a s e in_a value))
