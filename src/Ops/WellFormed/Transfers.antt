-- ===== src/Ops/WellFormed/Transfers.antt =====
-- The parts of the memory instructions keep the invariant.
use why.Base.{ℕ, ◌%◌, ◌^◌, IsWord, Option, zero, suc, none, some, add64}
use why.Machine.Types.{Size}
use why.Machine.State.{Exn}
use why.Machine.Ensures.{Keeps, Ensures-throw}
use why.Machine.WellFormed.{WellFormed}
use why.Machine.WellFormed.Actions.{increment-WellFormed}
use why.Ops.WellFormed.Values.{Ensures-then, Keeps-pure, mod-IsWord}
use why.Ops.WellFormed.Access.{
  Ensures-any, access_rules, privileged-WellFormed, return_by-WellFormed, on_translated-WellFormed,
  change_memory-WellFormed, if_writable-WellFormed, get-IsWord,
}
use why.Ops.Loads.{copy, load_from, store_to, or_throw, fill, store_immediate, copy_immediate}

module _ {lowest size : ℕ} where
  pub copy-WellFormed : (rs rd : ℕ) (s : Size) → Keeps (WellFormed lowest size) (copy rs rd s)
  unfolding copy
  copy-WellFormed rs rd s = search access_rules depth 14

  pub load_from-WellFormed :
      (rs rd : ℕ) (s : Size) → Keeps (WellFormed lowest size) (load_from rs rd s)
  unfolding load_from
  load_from-WellFormed rs rd s = search access_rules depth 14

  pub store_to-WellFormed :
      (rs rd : ℕ) (s : Size) → Keeps (WellFormed lowest size) (store_to rs rd s)
  unfolding store_to
  store_to-WellFormed rs rd s = search access_rules depth 14

  pub store_immediate-WellFormed :
      (rs address : ℕ) (s : Size)
      → IsWord address
      → Keeps (WellFormed lowest size) (store_immediate rs address s)
  unfolding store_immediate
  store_immediate-WellFormed rs address s w = search access_rules depth 14

  pub copy_immediate-WellFormed :
      (rd address : ℕ) (s : Size)
      → IsWord address
      → Keeps (WellFormed lowest size) (copy_immediate rd address s)
  unfolding copy_immediate
  copy_immediate-WellFormed rd address s w = search access_rules depth 14

  pub or_throw-WellFormed :
      (o : Option Size) (e : Exn) → Keeps (WellFormed lowest size) (or_throw o e)
  unfolding or_throw
  or_throw-WellFormed none e = Ensures-throw e
  or_throw-WellFormed (some s) e = Keeps-pure s

  pub fill-WellFormed :
      (left address value : ℕ)
      → IsWord address
      → Keeps (WellFormed lowest size) (fill left address value)
  unfolding fill
  fill-WellFormed zero address value w = increment-WellFormed
  fill-WellFormed (suc left) address value w =
      let rest = fill-WellFormed left (add64 address 1) value (mod-IsWord _) in
      on_translated-WellFormed address _ w λ t fits.
        if_writable-WellFormed t _ fits
          (Ensures-then _ _ (change_memory-WellFormed t (value % 2 ^ 8) Size.byte) rest)

pub ruleset transfer_rules = (
  access_rules, copy-WellFormed, load_from-WellFormed, store_to-WellFormed,
  store_immediate-WellFormed, copy_immediate-WellFormed, or_throw-WellFormed, fill-WellFormed,
)
