-- ===== src/Ops/WellFormed/HostLoops.antt =====
-- The loops over bytes of the device instruction keep the invariant, for a host that answers with
-- words and bytes.
use why.Base.{
  true, false, ℕ, ◌+◌, ◌-◌, ◌≤◌, IsWord, arith, Bool, List, Option, zero, suc, none, some, add64,
  sub64, [], ◌∷◌, ◌++◌, length, take, drop, ◌==◌, ◌&&◌, not, leb, if◌then◌else◌, is_negative, min,
}
use why.Machine.Memory.Bytes.{AreBytes}
use why.Machine.State.{M, Reply, HostCall, fault, pure, ◌>>=◌}
use why.Machine.Ensures.{
  Ensures, Keeps, Ensures-pure, Ensures-gets, Ensures-bind, Ensures-if, Ensures-fault, Keeps-modify,
}
use why.Machine.WellFormed.{WellFormed, IsReply}
use why.Machine.WellFormed.Accessors.{write_bytes-WellFormed, read_bytes-WellFormed}
use why.Machine.WellFormed.Actions.{
  ask-WellFormed, set_reg-WellFormed, translate_address-WellFormed,
}
use why.Machine.WellFormed.Interrupts.{
  int_pfault-WellFormed, int_bwrite-WellFormed, check_writable-WellFormed,
}
use why.Ops.WellFormed.Values.{Ensures-then, mod-IsWord}
use why.Ops.WellFormed.Access.{Ensures-any}
use why.Ops.Io.{call_host, set_e0, set_r0, chunk, round_at, read_loop, write_loop, name_loop}

-- A total that a loop hands on.
abbrev pub Total : Option ℕ → Type 0
Total none = Unit
Total (some n) = IsWord n

take-AreBytes : (n : ℕ) (bs : List ℕ) → AreBytes bs → AreBytes (take n bs)
take-AreBytes zero bs h = tt
take-AreBytes (suc n) [] h = tt
take-AreBytes (suc n) (b ∷ bs) h = (h.0, take-AreBytes n bs h.1)

drop-AreBytes : (n : ℕ) (bs : List ℕ) → AreBytes bs → AreBytes (drop n bs)
drop-AreBytes zero bs h = h
drop-AreBytes (suc n) [] h = tt
drop-AreBytes (suc n) (b ∷ bs) h = drop-AreBytes n bs h.1

pub append-AreBytes : (bs cs : List ℕ) → AreBytes bs → AreBytes cs → AreBytes (bs ++ cs)
append-AreBytes [] cs h k = k
append-AreBytes (b ∷ bs) cs h k = (h.0, append-AreBytes bs cs h.1 k)

module _ {lowest size : ℕ} where
  pub call_host-WellFormed :
      (request : HostCall) → Ensures (WellFormed lowest size) IsReply (call_host request)
  unfolding call_host
  call_host-WellFormed request =
      Ensures-bind _ _ (Ensures-gets {Q = IsReply} _ (λ vm v. v.host_fits (length vm.host_calls)))
        λ reply w. Ensures-then _ _ (Keeps-modify _ (λ vm v. assumption)) (Ensures-pure reply w)

  pub set_e0-WellFormed : (a : ℕ) → IsWord a → Keeps (WellFormed lowest size) (set_e0 a)
  unfolding set_e0
  set_e0-WellFormed a w = set_reg-WellFormed _ a false w

  pub set_r0-WellFormed : (a : ℕ) → IsWord a → Keeps (WellFormed lowest size) (set_r0 a)
  unfolding set_r0
  set_r0-WellFormed a w = set_reg-WellFormed _ a false w

  round_at-WellFormed :
      (must_write : Bool) (address remaining total : ℕ) (k : ℕ → ℕ → M (Option ℕ))
      → IsWord address
      → IsWord total
      → ((t room : ℕ) → Ensures (WellFormed lowest size) Total (k t room))
      → Ensures (WellFormed lowest size) Total (round_at must_write address remaining total k)
  unfolding round_at
  round_at-WellFormed must_write address remaining total k w n h =
      Ensures-bind _ _ (translate_address-WellFormed address w) λ r fits.
        Ensures-any _ _ check_writable-WellFormed λ writable.
          Ensures-any _ _ (ask-WellFormed _) λ memsize.
            Ensures-if (not r.1) _ _
              (λ _.
                Ensures-then _ _ (set_e0-WellFormed 2 (omega arith))
                  (Ensures-any _ _ int_pfault-WellFormed (λ _. Ensures-pure none tt)))
              λ _.
                Ensures-if (must_write && not writable) _ _
                  (λ _.
                    Ensures-then _ _ (set_e0-WellFormed 3 (omega arith)) (
                      Ensures-any _ _ (int_bwrite-WellFormed r.0 fits) (λ _. Ensures-pure none tt)))
                  λ _.
                    Ensures-if (leb memsize r.0) _ _ (λ _. Ensures-pure (some total) n)
                      (λ _. h r.0 (min (memsize - r.0) remaining))

  no_fuel-WellFormed :
      (remaining total : ℕ)
      → IsWord total
      → Ensures (WellFormed lowest size) Total (if remaining == 0 then pure (some total) else fault)
  no_fuel-WellFormed remaining total n =
      Ensures-if (remaining == 0) _ _ (λ _. Ensures-pure (some total) n) (λ _. Ensures-fault)

  -- What the loops do with the answer of the host.
  answered-WellFormed :
      (reply : Reply) (failed total : ℕ) (go_on : M (Option ℕ))
      → IsReply reply
      → failed ≤ 3
      → IsWord total
      → Ensures (WellFormed lowest size) Total go_on
      → Ensures (WellFormed lowest size) Total (
          if is_negative reply.result
          then set_e0 (reply.errno + failed) >>= (λ _. pure (some total))
          else if reply.result == 0
          then pure (some total)
          else go_on)
  answered-WellFormed reply failed total go_on r f n k =
      Ensures-if (is_negative reply.result) _ _
        (λ _.
          Ensures-then _ _ (set_e0-WellFormed (reply.errno + failed) (omega (arith, r.errno_fits)))
            (Ensures-pure (some total) n))
        λ _. Ensures-if (reply.result == 0) _ _ (λ _. Ensures-pure (some total) n) (λ _. k)

  pub read_loop-WellFormed :
      (fuel fd address remaining total : ℕ)
      → IsWord address
      → IsWord total
      → Ensures (WellFormed lowest size) Total (read_loop fuel fd address remaining total)
  unfolding read_loop
  read_loop-WellFormed zero fd address remaining total w n = no_fuel-WellFormed remaining total n
  read_loop-WellFormed (suc fuel) fd address remaining total w n =
      Ensures-if (remaining == 0) _ _ (λ _. Ensures-pure (some total) n)
        λ _. round_at-WellFormed true address remaining total _ w n λ t room.
          Ensures-bind _ _ (call_host-WellFormed (HostCall.read_file fd (chunk address room)))
            λ reply r. answered-WellFormed reply 3 total _ r (omega arith) n (
              Ensures-then _ _
                (write_bytes-WellFormed _ t (take-AreBytes reply.result reply.bytes r.bytes_fit))
                (read_loop-WellFormed fuel fd (add64 address reply.result) (sub64 room reply.result)
                  (add64 total reply.result) (mod-IsWord _) (mod-IsWord _)))

  pub write_loop-WellFormed :
      (fuel fd address remaining total : ℕ)
      → IsWord address
      → IsWord total
      → Ensures (WellFormed lowest size) Total (write_loop fuel fd address remaining total)
  unfolding write_loop
  write_loop-WellFormed zero fd address remaining total w n = no_fuel-WellFormed remaining total n
  write_loop-WellFormed (suc fuel) fd address remaining total w n =
      Ensures-if (remaining == 0) _ _ (λ _. Ensures-pure (some total) n)
        λ _. round_at-WellFormed false address remaining total _ w n λ t room.
          Ensures-bind _ _ (read_bytes-WellFormed (chunk address room) t) λ contents _.
            Ensures-bind _ _ (call_host-WellFormed (HostCall.write_file fd contents)) λ reply r.
              answered-WellFormed reply 2 total _ r (omega arith) n (
                write_loop-WellFormed fuel fd (add64 address reply.result) (sub64 room reply.result)
                  (add64 total reply.result) (mod-IsWord _) (mod-IsWord _))

  pub name_loop-WellFormed :
      (fuel : ℕ) (name : List ℕ) (address remaining total : ℕ)
      → AreBytes name
      → IsWord address
      → IsWord total
      → Ensures (WellFormed lowest size) Total (name_loop fuel name address remaining total)
  unfolding name_loop
  name_loop-WellFormed zero name address remaining total b w n =
      no_fuel-WellFormed remaining total n
  name_loop-WellFormed (suc fuel) name address remaining total b w n =
      Ensures-if (remaining == 0) _ _ (λ _. Ensures-pure (some total) n)
        λ _. round_at-WellFormed true address remaining total _ w n λ t room.
          Ensures-then _ _ (write_bytes-WellFormed _ t (take-AreBytes (chunk address room) name b))
            (name_loop-WellFormed fuel (drop (chunk address room) name)
              (add64 address (chunk address room)) (room - chunk address room)
              (add64 total (chunk address room)) (drop-AreBytes (chunk address room) name b)
              (mod-IsWord _) (mod-IsWord _))
