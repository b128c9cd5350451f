-- ===== src/Ops/WellFormed/Access.antt =====
-- Translated accesses, jumps and privileged instructions: the rules for their parts.
use why.Base.{ℕ, suc, ◌<◌, Bool, true, IsWord, arith}
use why.Machine.Types.{Size, Endianness}
use why.Machine.State.{M, Vm, modify, ◌>>=◌}
use why.Machine.Memory.{get}
use why.Machine.Memory.Bytes.{span_mod}
use why.Machine.Memory.RoundTrip.{span_of}
use why.Machine.Ensures.{Ensures, Keeps, Ensures-bind, Ensures-if, Ensures-weaken, Keeps-modify}
use why.Machine.WellFormed.{WellFormed}
use why.Machine.WellFormed.Accessors.{get-WellFormed, set-WellFormed}
use why.Machine.WellFormed.Actions.{
  ask-WellFormed, translate_address-WellFormed, set_reg-WellFormed, increment-WellFormed,
  jump-WellFormed, buffer_change-WellFormed, memory_change_to-WellFormed,
  check_conditions-WellFormed, wake_rest-WellFormed, halt-WellFormed,
}
use why.Machine.WellFormed.Interrupts.{
  int_pfault-WellFormed, int_bwrite-WellFormed, int_protec-WellFormed, check_ring-WellFormed,
  check_writable-WellFormed,
}
use why.Ops.WellFormed.Values.{Ensures-word, Keeps-pure, compute_rules}
use why.Ops.Access.{on_translated, if_writable, change_memory, store_value, load_value}
use why.Ops.Jumps.{reenable, jump_to_reg, return_by}
use why.Ops.System.{privileged}

span_mod-IsWord : (s : Size) (v : ℕ) → v < span_mod (suc (span_of s)) → IsWord v
span_mod-IsWord Size.byte v h = omega arith
span_mod-IsWord Size.qword v h = omega arith
span_mod-IsWord Size.hword v h = omega arith
span_mod-IsWord Size.word v h = omega arith

module _ {A B : Type 0} {P : Vm → Type 0} {R : B → Type 0} where
  -- An action whose value is not used for what it is.
  pub Ensures-any :
      (m : M A) (f : A → M B) → Keeps P m → ((a : A) → Ensures P R (f a)) → Ensures P R (m >>= f)
  Ensures-any m f km kf = Ensures-bind m f km (λ a _. kf a)

module _ {lowest size : ℕ} where
  -- What is read is a word, whatever the size.
  pub get-IsWord :
      (address : ℕ) (s : Size) (e : Endianness)
      → Ensures (WellFormed lowest size) IsWord (get address s e)
  get-IsWord address s e = Ensures-weaken (span_mod-IsWord s) (get-WellFormed address s e)

  pub on_translated-WellFormed :
      (address : ℕ) (k : ℕ → M (Unit {0}))
      → IsWord address
      → ((t : ℕ) → IsWord t → Keeps (WellFormed lowest size) (k t))
      → Keeps (WellFormed lowest size) (on_translated address k)
  unfolding on_translated
  on_translated-WellFormed address k w h =
      Ensures-bind _ _ (translate_address-WellFormed address w) λ r fits.
        Ensures-if r.1 _ _ (λ _. h r.0 fits)
          (λ _. Ensures-any _ _ int_pfault-WellFormed (λ _. Keeps-pure tt))

  pub if_writable-WellFormed :
      (translated : ℕ) (m : M (Unit {0}))
      → IsWord translated
      → Keeps (WellFormed lowest size) m
      → Keeps (WellFormed lowest size) (if_writable translated m)
  unfolding if_writable
  if_writable-WellFormed translated m w k = Ensures-any _ _ check_writable-WellFormed λ writable.
      Ensures-if writable _ _ (λ _. k)
        (λ _. Ensures-any _ _ (int_bwrite-WellFormed translated w) (λ _. Keeps-pure tt))

  pub change_memory-WellFormed :
      (address value : ℕ) (s : Size)
      → Keeps (WellFormed lowest size) (change_memory address value s)
  unfolding change_memory
  change_memory-WellFormed address value s =
      Ensures-any _ _ (buffer_change-WellFormed _ (memory_change_to-WellFormed address value s))
        (λ _. set-WellFormed address value s Endianness.little)

  pub store_value-WellFormed :
      (translated value : ℕ) (s : Size)
      → IsWord translated
      → Keeps (WellFormed lowest size) (store_value translated value s)
  unfolding store_value
  store_value-WellFormed translated value s w =
      search (if_writable-WellFormed, change_memory-WellFormed, compute_rules)

  pub load_value-WellFormed :
      (rd translated : ℕ) (s : Size) → Keeps (WellFormed lowest size) (load_value rd translated s)
  unfolding load_value
  load_value-WellFormed rd translated s = search (get-IsWord, compute_rules)

  pub privileged-WellFormed :
      (ring : ℕ) (m : M (Unit {0}))
      → Keeps (WellFormed lowest size) m
      → Keeps (WellFormed lowest size) (privileged ring m)
  unfolding privileged
  privileged-WellFormed ring m k = Ensures-any _ _ (check_ring-WellFormed ring) λ permitted.
      Ensures-if permitted _ _ (λ _. k)
        (λ _. Ensures-any _ _ int_protec-WellFormed (λ _. Keeps-pure tt))

  enable_interrupts-WellFormed :
      Keeps
        (WellFormed lowest size)
        (modify (λ vm. record vm { hardware_interrupts_enabled = true }))
  enable_interrupts-WellFormed = Keeps-modify _ (λ vm v. assumption)

  pub reenable-WellFormed :
      (reg : ℕ) (wake : M (Unit {0}))
      → Keeps (WellFormed lowest size) wake
      → Keeps (WellFormed lowest size) (reenable reg wake)
  unfolding reenable
  reenable-WellFormed reg wake k =
      search (check_ring-WellFormed, enable_interrupts-WellFormed, Ensures-any, compute_rules)

  pub jump_to_reg-WellFormed :
      (rd : ℕ) (link : Bool) → Keeps (WellFormed lowest size) (jump_to_reg rd link)
  unfolding jump_to_reg
  jump_to_reg-WellFormed rd link = search (jump-WellFormed, compute_rules)

  pub return_by-WellFormed : (reg : ℕ) → Keeps (WellFormed lowest size) (return_by reg)
  unfolding return_by
  return_by-WellFormed reg =
      search (reenable-WellFormed, wake_rest-WellFormed, jump_to_reg-WellFormed, compute_rules)

pub ruleset access_rules = (
  compute_rules, Ensures-any, get-IsWord, on_translated-WellFormed, if_writable-WellFormed,
  change_memory-WellFormed, store_value-WellFormed, load_value-WellFormed, privileged-WellFormed,
  reenable-WellFormed, jump_to_reg-WellFormed, return_by-WellFormed, jump-WellFormed,
  check_conditions-WellFormed, wake_rest-WellFormed, ask-WellFormed,
)
