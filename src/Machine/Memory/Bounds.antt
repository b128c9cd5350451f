-- ===== src/Machine/Memory/Bounds.antt =====
-- The bounds tests of the accessors, which subtract where they should add: an access of n bytes that
-- runs past the end of the memory by less than it could is let through.
use why.Base.{ℕ, ◌+◌, ◌^◌, ◌≤◌, ◌<◌, ◌≡◌, ap, ◌∙◌, arith}
use why.Machine.Types.{Size, Endianness}
use why.Machine.State.{Vm, Exn, throws, undefined, ◌>>=◌}
use why.Machine.Memory.{get, load}
use why.Machine.Memory.Access.{IsSized, check_bounds_inside, check_bounds_outside, read_bytes_past}
use why.Machine.Memory.RoundTrip.{span_of, span_small, order_of, get-load}

-- An access far enough past the end throws, and changes nothing.
pub get-out_of_bounds :
    (vm : Vm) (address : ℕ) (size : Size) (e : Endianness)
    → IsSized vm
    → vm.memory_size + span_of size ≤ address
    → address < 2 ^ 64
    → get address size e vm ≡ throws Exn.out_of_bounds vm
get-out_of_bounds vm address size e sized past word =
    ap (λ m. m vm) (get-load address size e) ∙ loaded
  where
    loaded : load (span_of size) address (order_of size e) vm ≡ throws Exn.out_of_bounds vm
    loaded =
        unfold load ◌>>=◌ in
        rw (
          check_bounds_outside (span_of size) address vm (span_small size) sized.size_fits word
            past)

-- Between the two, the test passes and the access runs past the end of the vector.
pub get_past_the_end :
    (vm : Vm) (address : ℕ) (size : Size) (e : Endianness)
    → IsSized vm
    → vm.memory_size ≤ address + span_of size
    → address < vm.memory_size + span_of size
    → get address size e vm ≡ undefined
get_past_the_end vm address size e sized past near =
    ap (λ m. m vm) (get-load address size e) ∙ loaded
  where
    loaded : load (span_of size) address (order_of size e) vm ≡ undefined
    loaded =
        unfold load ◌>>=◌ in
        rw (
          check_bounds_inside (span_of size) address vm (span_small size) sized.size_fits near,
          read_bytes_past (span_of size) address vm (omega (arith, sized.allocated)),
        )
