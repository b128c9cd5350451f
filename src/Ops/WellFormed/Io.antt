-- ===== src/Ops/WellFormed/Io.antt =====
-- The device instruction keeps the invariant.
use why.Base.{
  true, false, ℕ, ◌+◌, ◌-◌, IsWord, arith, Bool, List, Option, zero, suc, none, some, [], ◌∷◌, All,
  ◌++◌, length, get_elem?, ◌==◌, not, if◌then◌else◌, min,
}
use why.Machine.Memory.Bytes.{AreBytes}
use why.Machine.Reg
use why.Machine.State.{M, Drive, Reply, gets, get_reg}
use why.Machine.Ensures.{Ensures, Keeps, Ensures-gets, Ensures-bind, Ensures-if, Ensures-weaken}
use why.Machine.WellFormed.{WellFormed, IsReply}
use why.Machine.WellFormed.Accessors.{get_reg-WellFormed}
use why.Machine.WellFormed.Actions.{increment-WellFormed}
use why.Ops.WellFormed.Values.{Ensures-word, Ensures-then, Keeps-pure, if-IsWord}
use why.Ops.WellFormed.Access.{Ensures-any, privileged-WellFormed}
use why.Ops.WellFormed.HostLoops.{
  Total, append-AreBytes, call_host-WellFormed, set_e0-WellFormed, set_r0-WellFormed,
  read_loop-WellFormed, write_loop-WellFormed, name_loop-WellFormed,
}
use why.Ops.Io.{
  set_e0, finish_loop, minus_one, io_seekabs, io_seekrel, io_read, io_write, io_getsize,
  io_getcursor, io_getname, with_drive, io_devcount, io_request, io_op,
}

abbrev SomeName : Option Drive → Type 0
SomeName none = Unit
SomeName (some d) = AreBytes d.name

get_elem?-SomeName :
    (drives : List Drive) (n : ℕ)
    → All (λ (d : Drive). AreBytes d.name) drives
    → SomeName (get_elem? drives n)
get_elem?-SomeName [] n h = tt
get_elem?-SomeName (d ∷ ds) zero h = h.0
get_elem?-SomeName (d ∷ ds) (suc n) h = get_elem?-SomeName ds n h.1

error-IsWord : IsWord 666
error-IsWord = omega arith

module _ {lowest size : ℕ} where
  finish_loop-WellFormed :
      (f : ℕ → ℕ) (total : Option ℕ)
      → ((n : ℕ) → IsWord n → IsWord (f n))
      → Total total
      → Keeps (WellFormed lowest size) (finish_loop f total)
  unfolding finish_loop
  finish_loop-WellFormed f none h w = Keeps-pure false
  finish_loop-WellFormed f (some n) h w =
      Ensures-then _ _ (set_r0-WellFormed (f n) (h n w)) (Keeps-pure true)

  io_seekabs-WellFormed :
      (d : Drive) (offset : ℕ) → Keeps (WellFormed lowest size) (io_seekabs d offset)
  unfolding io_seekabs
  io_seekabs-WellFormed d offset = Ensures-bind _ _ (call_host-WellFormed _) λ reply r.
      Ensures-then _ _
        (set_e0-WellFormed _
          (if-IsWord (reply.result == minus_one) 2 0 (omega arith) (omega arith)))
        (Keeps-pure true)

  io_seekrel-WellFormed :
      (d : Drive) (offset : ℕ) → Keeps (WellFormed lowest size) (io_seekrel d offset)
  unfolding io_seekrel
  io_seekrel-WellFormed d offset = Ensures-bind _ _ (call_host-WellFormed _) λ reply r.
      Ensures-then _ _
        (Ensures-if (reply.result == minus_one) _ _ (λ _. set_e0-WellFormed 2 (omega arith))
          (λ _.
            Ensures-then _ _ (set_e0-WellFormed 0 (omega arith))
              (set_r0-WellFormed reply.result r.result_fits)))
        (Keeps-pure true)

  io_read-WellFormed :
      (d : Drive) (address count : ℕ)
      → IsWord address
      → Keeps (WellFormed lowest size) (io_read d address count)
  unfolding io_read
  io_read-WellFormed d address count w = Ensures-then _ _ (set_e0-WellFormed 0 (omega arith)) (
      Ensures-bind _ _ (read_loop-WellFormed count d.fd address count 0 w (omega arith))
        λ total t. finish_loop-WellFormed (λ n. n) total (λ n h. h) t)

  io_write-WellFormed :
      (d : Drive) (address count : ℕ)
      → IsWord address
      → Keeps (WellFormed lowest size) (io_write d address count)
  unfolding io_write
  io_write-WellFormed d address count w = Ensures-then _ _ (set_e0-WellFormed 0 (omega arith)) (
      Ensures-bind _ _ (write_loop-WellFormed count d.fd address count 0 w (omega arith))
        λ total t. finish_loop-WellFormed (λ n. n) total (λ n h. h) t)

  io_getname-WellFormed :
      (d : Drive) (address : ℕ)
      → AreBytes d.name
      → IsWord address
      → Keeps (WellFormed lowest size) (io_getname d address)
  unfolding io_getname
  io_getname-WellFormed d address b w = Ensures-then _ _ (set_e0-WellFormed 0 (omega arith)) (
      Ensures-bind _ _
        (name_loop-WellFormed (min address (length d.name + 1)) (d.name ++ 0 ∷ []) address
          (min address (length d.name + 1)) 0 (append-AreBytes d.name (0 ∷ []) b (omega arith, tt))
          w (omega arith))
        λ total t. finish_loop-WellFormed (λ n. n - 1) total (λ n h. omega arith) t)

  -- errno, and one more if it matters.
  failed-WellFormed :
      (reply : Reply)
      → IsReply reply
      → Keeps
          (WellFormed lowest size)
          (set_e0 (if reply.result == minus_one then reply.errno + 1 else 0))
  failed-WellFormed reply r = set_e0-WellFormed _ (
      if-IsWord (reply.result == minus_one) (reply.errno + 1) 0 (omega (arith, r.errno_fits))
        (omega arith))

  io_getcursor-WellFormed : (d : Drive) → Keeps (WellFormed lowest size) (io_getcursor d)
  unfolding io_getcursor
  io_getcursor-WellFormed d = Ensures-bind _ _ (call_host-WellFormed _) λ reply r.
      Ensures-then _ _ (failed-WellFormed reply r) (
        Ensures-then _ _
          (Ensures-if (not (reply.result == minus_one)) _ _
            (λ _. set_r0-WellFormed reply.result r.result_fits) (λ _. Keeps-pure tt))
          (Keeps-pure true))

  io_getsize-WellFormed : (d : Drive) → Keeps (WellFormed lowest size) (io_getsize d)
  unfolding io_getsize
  io_getsize-WellFormed d = Ensures-bind _ _ (call_host-WellFormed _) λ old r.
      Ensures-then _ _
        (Ensures-if (old.result == minus_one) _ _
          (λ _. set_e0-WellFormed (old.errno + 1) (omega (arith, r.errno_fits)))
          (λ _. Ensures-bind _ _ (call_host-WellFormed _) λ end s.
            Ensures-if (end.result == minus_one) _ _
              (λ _. set_e0-WellFormed (end.errno + 1) (omega (arith, s.errno_fits)))
              (λ _.
                Ensures-then _ _ (set_r0-WellFormed end.result s.result_fits) (
                  Ensures-bind _ _ (call_host-WellFormed _) (λ back q. failed-WellFormed back q)))))
        (Keeps-pure true)

  with_drive-WellFormed :
      (drive : Option Drive) (k : Drive → M Bool)
      → SomeName drive
      → ((d : Drive) → AreBytes d.name → Keeps (WellFormed lowest size) (k d))
      → Keeps (WellFormed lowest size) (with_drive drive k)
  unfolding with_drive
  with_drive-WellFormed none k b h =
      Ensures-then _ _ (set_e0-WellFormed 1 (omega arith)) (Keeps-pure true)
  with_drive-WellFormed (some d) k b h = h d b

  io_devcount-WellFormed : Keeps (WellFormed lowest size) io_devcount
  unfolding io_devcount
  io_devcount-WellFormed = Ensures-bind _ _ count-IsWord λ n w.
      Ensures-then _ _ (set_e0-WellFormed 0 (omega arith))
        (Ensures-then _ _ (set_r0-WellFormed n w) (Keeps-pure true))
    where
      count-IsWord : Ensures (WellFormed lowest size) IsWord (gets (λ vm. length vm.drives))
      count-IsWord = Ensures-gets _ (λ vm v. v.drives_fit)

  io_request-WellFormed :
      (a0 : ℕ) (drive : Option Drive) (a2 a3 : ℕ)
      → SomeName drive
      → IsWord a2
      → Keeps (WellFormed lowest size) (io_request a0 drive a2 a3)
  unfolding io_request
  io_request-WellFormed a0 drive a2 a3 b w =
      search
        (
          Ensures-if, io_devcount-WellFormed, with_drive-WellFormed, io_seekabs-WellFormed,
          io_seekrel-WellFormed, io_read-WellFormed, io_write-WellFormed, io_getsize-WellFormed,
          io_getcursor-WellFormed, io_getname-WellFormed, Ensures-then, set_e0-WellFormed,
          Keeps-pure, error-IsWord,
        )
        depth 16

  pub io_op-WellFormed : (rs rt rd : ℕ) → Keeps (WellFormed lowest size) (io_op rs rt rd)
  unfolding io_op
  io_op-WellFormed rs rt rd = privileged-WellFormed 2 _ (
      Ensures-any _ _ (ask_reg Reg.argument) λ a0.
        Ensures-any _ _ (ask_reg (Reg.argument + 1)) λ a1.
          Ensures-word _ _ (get_reg-WellFormed (Reg.argument + 2)) λ a2 w.
            Ensures-any _ _ (ask_reg (Reg.argument + 3)) λ a3.
              Ensures-bind _ _
                (Ensures-gets {Q = SomeName} _
                  (λ vm v. get_elem?-SomeName vm.drives a1 v.names_fit))
                λ drive b.
                  Ensures-any _ _ (io_request-WellFormed a0 drive a2 a3 b w)
                    λ done. Ensures-if done _ _ (λ _. increment-WellFormed) (λ _. Keeps-pure tt))
    where
      ask_reg : (r : ℕ) → Keeps (WellFormed lowest size) (get_reg r)
      ask_reg r = Ensures-weaken (λ _ _. tt) (get_reg-WellFormed r)
