-- ===== src/Machine/Memory/Access.antt =====
-- What the accessors read and write, in terms of the contents of the memory.
use why.Base.{
  ℕ, zero, suc, ◌+◌, ◌^◌, ◌≤◌, ◌<◌, ◌≡◌, ◌⊎◌, inl, inr, refl, ap, ◌∙◌, fun_ext, ◌&&◌, List, [], ◌∷◌,
  length, ltb, leb, ◌==◌, arith, lt→ltb, Bool-cases,
}
use why.Machine.Types.{Endianness}
use why.Machine.State.{Vm, Exn, ok, throws, undefined, pure, fault, throw, gets, ◌>>=◌, update}
use why.Machine.Memory.{
  read_byte, write_byte, read_bytes, write_bytes, split_bytes, join_bytes, ordered, out_of_bounds,
  check_bounds, load, store,
}
use why.Machine.Memory.Bytes.{AreBytes, length-split_bytes, length-ordered}

-- The vector has the size that the machine was given, as VM::load leaves it, and the size is far from
-- the end of the signed numbers.
pub record IsSized (vm : Vm) : Type 0 where
  pub allocated : vm.allocated ≡ vm.memory_size
  pub size_fits : vm.memory_size < 2 ^ 62

-- Every byte of the memory is one.
abbrev pub HoldsBytes : Vm → Type 0
HoldsBytes vm = (i : ℕ) → vm.memory i < 2 ^ 8

-- An access of `suc span` bytes at `address` lies in the memory.
abbrev pub InMemory : ℕ → ℕ → Vm → Type 0
InMemory span address vm = address + span < vm.memory_size

-- `n` elements from `i` on, and the contents with a list laid over them.
abbrev pub bytes_at : ℕ → ℕ → (ℕ → ℕ) → List ℕ
bytes_at zero i f = []
bytes_at (suc n) i f = f i ∷ bytes_at n (i + 1) f

abbrev pub overlay : List ℕ → ℕ → (ℕ → ℕ) → ℕ → ℕ
overlay [] i f = f
overlay (b ∷ bs) i f = overlay bs (i + 1) (update f i b)

abbrev pub with_memory : Vm → (ℕ → ℕ) → Vm
with_memory vm f = record vm { memory = f }

pub read_bytes_lem :
    (n i : ℕ) (vm : Vm) → i + n ≤ vm.allocated → read_bytes n i vm ≡ ok (bytes_at n i vm.memory) vm
unfolding read_bytes read_byte ◌>>=◌ pure
read_bytes_lem zero i vm h = refl
read_bytes_lem (suc n) i vm h =
    rw (lt→ltb i vm.allocated (omega arith), read_bytes_lem n (i + 1) vm (omega arith))

pub write_bytes_lem :
    (bs : List ℕ) (i : ℕ) (vm : Vm)
    → i + length bs ≤ vm.allocated
    → write_bytes bs i vm ≡ ok tt (with_memory vm (overlay bs i vm.memory))
unfolding write_bytes write_byte ◌>>=◌ pure
write_bytes_lem [] i vm h = refl
write_bytes_lem (b ∷ bs) i vm h =
    rw (lt→ltb i vm.allocated (omega arith))
      (write_bytes_lem bs (i + 1) (with_memory vm (update vm.memory i b)) (omega arith))

-- Outside of the list the contents stay.
pub overlay_outside :
    (bs : List ℕ) (i : ℕ) (f : ℕ → ℕ) (j : ℕ)
    → (j < i) ⊎ (i + length bs ≤ j)
    → overlay bs i f j ≡ f j
overlay_outside [] i f j h = refl
overlay_outside (b ∷ bs) i f j h = ground (arith, overlay_outside bs (i + 1) (update f i b) j)

pub bytes_at-overlay :
    (bs : List ℕ) (i : ℕ) (f : ℕ → ℕ) → bytes_at (length bs) i (overlay bs i f) ≡ bs
bytes_at-overlay [] i f = refl
bytes_at-overlay (b ∷ bs) i f =
    ground (
      arith,
      overlay_outside bs (i + 1) (update f i b) i,
      bytes_at-overlay bs (i + 1) (update f i b),
    )

update_self : (f : ℕ → ℕ) (i : ℕ) → update f i (f i) ≡ f
update_self f i = fun_ext λ j. ground arith

-- What was read, laid over the contents, leaves them.
pub overlay-bytes_at : (n i : ℕ) (f : ℕ → ℕ) → overlay (bytes_at n i f) i f ≡ f
overlay-bytes_at zero i f = refl
overlay-bytes_at (suc n) i f =
    ap (overlay (bytes_at n (i + 1) f) (i + 1)) (update_self f i) ∙ overlay-bytes_at n (i + 1) f

overlay_inside :
    (bs : List ℕ) (i : ℕ) (f g : ℕ → ℕ) (j : ℕ)
    → i ≤ j
    → j < i + length bs
    → overlay bs i f j ≡ overlay bs i g j
overlay_inside [] i f g j h k = absurd (omega arith)
overlay_inside (b ∷ bs) i f g j h k = elim (Bool-cases (i == j)) [
  | inl e ↦ ground (
    arith,
    overlay_outside bs (i + 1) (update f i b) j,
    overlay_outside bs (i + 1) (update g i b) j,
  )
  | inr ne ↦ ground (arith, overlay_inside bs (i + 1) (update f i b) (update g i b) j)
]

pub length-bytes_at : (n i : ℕ) (f : ℕ → ℕ) → length (bytes_at n i f) ≡ n
length-bytes_at zero i f = refl
length-bytes_at (suc n) i f = ap suc (length-bytes_at n (i + 1) f)

-- The old bytes, laid over contents that were changed there only, give the old contents back.
pub overlay_restores :
    (bs : List ℕ) (n i : ℕ) (f : ℕ → ℕ)
    → length bs ≡ n
    → overlay (bytes_at n i f) i (overlay bs i f) ≡ f
overlay_restores bs n i f h = fun_ext λ j.
    let old = bytes_at n i f in
    let len = length-bytes_at n i f in
    elim (Bool-cases (leb i j && ltb j (i + n))) [
      | inl e ↦ ground (
        arith,
        len,
        overlay_inside old i (overlay bs i f) f j,
        ap (λ (g : ℕ → ℕ). g j) (overlay-bytes_at n i f),
      )
      | inr e ↦
          ground (arith, len, overlay_outside old i (overlay bs i f) j, overlay_outside bs i f j)
    ]

pub AreBytes-bytes_at : (n i : ℕ) (f : ℕ → ℕ) → ((j : ℕ) → f j < 2 ^ 8) → AreBytes (bytes_at n i f)
AreBytes-bytes_at zero i f h = tt
AreBytes-bytes_at (suc n) i f h = (h i, AreBytes-bytes_at n (i + 1) f h)

-- Elsewhere the bytes that are read are the old ones.
pub bytes_at_apart :
    (n k i : ℕ) (bs : List ℕ) (f : ℕ → ℕ)
    → (k + n ≤ i) ⊎ (i + length bs ≤ k)
    → bytes_at n k (overlay bs i f) ≡ bytes_at n k f
bytes_at_apart zero k i bs f h = refl
bytes_at_apart (suc n) k i bs f h =
    ground (arith, overlay_outside bs i f k, bytes_at_apart n (k + 1) i bs f)

-- Past the vector a read or a write of at least one byte is undefined.
pub read_bytes_past :
    (n i : ℕ) (vm : Vm) → vm.allocated < i + suc n → read_bytes (suc n) i vm ≡ undefined
unfolding read_bytes read_byte ◌>>=◌ pure fault
read_bytes_past zero i vm h = ground arith
read_bytes_past (suc n) i vm h = elim (Bool-cases (ltb i vm.allocated)) [
  | inr out ↦ rw out
  | inl in_range ↦ rw (in_range, read_bytes_past n (i + 1) vm (omega arith))
]

-- The bounds test, as an order on numbers.
pub check_bounds_inside :
    (span address : ℕ) (vm : Vm)
    → span < 8
    → vm.memory_size < 2 ^ 62
    → address < vm.memory_size + span
    → check_bounds span address vm ≡ ok tt vm
unfolding check_bounds out_of_bounds ◌>>=◌ pure throw gets
check_bounds_inside span address vm h size fits = ground arith

pub check_bounds_outside :
    (span address : ℕ) (vm : Vm)
    → span < 8
    → vm.memory_size < 2 ^ 62
    → address < 2 ^ 64
    → vm.memory_size + span ≤ address
    → check_bounds span address vm ≡ throws Exn.out_of_bounds vm
unfolding check_bounds out_of_bounds ◌>>=◌ pure throw gets
check_bounds_outside span address vm h size word fits = ground arith

module _ (span address : ℕ) (e : Endianness) (vm : Vm) (small : span < 8) (sized : IsSized vm) where
  abbrev found : List ℕ
  found = bytes_at (suc span) address vm.memory

  -- An access within the memory reads the bytes there.
  pub load_inside :
      InMemory span address vm → load span address e vm ≡ ok (join_bytes (ordered e found)) vm
  unfolding load ◌>>=◌ pure
  load_inside h = rw (
    check_bounds_inside span address vm small sized.size_fits (omega arith),
    read_bytes_lem (suc span) address vm (omega (arith, sized.allocated)),
  )

  -- A store within the memory lays the value's bytes over it.
  pub store_inside :
      (value : ℕ)
      → InMemory span address vm
      → store span address value e vm
        ≡ ok tt
            (with_memory vm (overlay (ordered e (split_bytes (suc span) value)) address vm.memory))
  unfolding store ◌>>=◌
  store_inside value h =
      rw (check_bounds_inside span address vm small sized.size_fits (omega arith)) (
        write_bytes_lem (ordered e (split_bytes (suc span) value)) address vm (
          omega (
            arith,
            sized.allocated,
            length-ordered e (split_bytes (suc span) value),
            length-split_bytes (suc span) value,
          )))
