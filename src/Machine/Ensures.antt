-- ===== src/Machine/Ensures.antt =====
-- Invariants of actions, with what is known of the value that an action returns. A rule for each way
-- to build an action; `search ensures_rules` walks a `do` block.
use why.Base.{◌≡◌, refl, Bool, true, false, if◌then◌else◌}
use why.Machine.State.{
  Vm, Exn, Outcome, ok, throws, undefined, M, pure, throw, fault, gets, modify, bind_outcome, ◌>>=◌,
}

-- `P` holds after a normal return and after an exception, `Q` of the value. What C++ leaves undefined
-- is not constrained.
abbrev pub Post : {A : Type 0} → (Vm → Type 0) → (A → Type 0) → Outcome A → Type 0
Post P Q (ok a vm) = P vm × Q a
Post P Q (throws e vm) = P vm
Post P Q undefined = Unit

pub record Ensures {A : Type 0} (P : Vm → Type 0) (Q : A → Type 0) (m : M A) : Type 0 where
  pub at : (vm : Vm) → P vm → Post P Q (m vm)

-- Nothing is said of the value.
abbrev pub Any : {A : Type 0} → A → Type 0
Any a = Unit

abbrev pub Keeps : {A : Type 0} → (Vm → Type 0) → M A → Type 0
Keeps P m = Ensures P Any m

module _ {A : Type 0} {P : Vm → Type 0} where
  pub Ensures-pure : {Q : A → Type 0} (a : A) → Q a → Ensures P Q (pure a)
  unfolding pure
  Ensures-pure a q = record { at = λ vm h. (h, q) }

  pub Ensures-throw : {Q : A → Type 0} (e : Exn) → Ensures P Q (throw e)
  unfolding throw
  Ensures-throw e = record { at = λ vm h. h }

  pub Ensures-fault : {Q : A → Type 0} → Ensures P Q fault
  unfolding fault
  Ensures-fault = record { at = λ vm h. tt }

  pub Ensures-gets :
      {Q : A → Type 0} (f : Vm → A) → ((vm : Vm) → P vm → Q (f vm)) → Ensures P Q (gets f)
  unfolding gets
  Ensures-gets f q = record { at = λ vm h. (h, q vm h) }

  pub Ensures-if :
      {Q : A → Type 0} (b : Bool) (m n : M A)
      → (b ≡ true → Ensures P Q m)
      → (b ≡ false → Ensures P Q n)
      → Ensures P Q (if b then m else n)
  Ensures-if true m n km kn = km refl
  Ensures-if false m n km kn = kn refl

  pub Ensures-weaken :
      {Q R : A → Type 0} {m : M A} → ((a : A) → Q a → R a) → Ensures P Q m → Ensures P R m
  Ensures-weaken {Q = Q} {R = R} {m = m} w k = record { at = λ vm h. weaken (m vm) (k.at vm h) }
    where
      weaken : (o : Outcome A) → Post P Q o → Post P R o
      weaken (ok a vm) p = (p.0, w a p.1)
      weaken (throws e vm) p = p
      weaken undefined p = tt

module _ {P : Vm → Type 0} where
  pub Keeps-modify : (f : Vm → Vm) → ((vm : Vm) → P vm → P (f vm)) → Keeps P (modify f)
  unfolding modify
  Keeps-modify f k = record { at = λ vm h. (k vm h, tt) }

module _ {A B : Type 0} {P : Vm → Type 0} where
  after_bind :
      {Q : A → Type 0} {R : B → Type 0} (o : Outcome A) (f : A → M B)
      → ((a : A) → Q a → Ensures P R (f a))
      → Post P Q o
      → Post P R (bind_outcome o f)
  unfolding bind_outcome
  after_bind (ok a vm) f k p = (k a p.1).at vm p.0
  after_bind (throws e vm) f k p = p
  after_bind undefined f k p = tt

  pub Ensures-bind :
      {Q : A → Type 0} {R : B → Type 0} (m : M A) (f : A → M B)
      → Ensures P Q m
      → ((a : A) → Q a → Ensures P R (f a))
      → Ensures P R (m >>= f)
  unfolding ◌>>=◌
  Ensures-bind m f km kf = record { at = λ vm h. after_bind (m vm) f kf (km.at vm h) }

pub ruleset ensures_rules = (Ensures-pure, Ensures-throw, Ensures-fault, Ensures-if, Ensures-bind)
