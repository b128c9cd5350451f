-- ===== src/Object/Result.antt =====
-- What a function of wasmc gives: a value, an exception, or nothing that C++ defines.
use why.Base.{ℕ, zero, suc, Bool, List, [], ◌∷◌, if◌then◌else◌}

-- The exceptions, by what each is about.
pub data Error : Type 0 where
  not_an_integer : Error
  too_large : Error
  empty_label : Error
  hash_mismatch : Error
  invalid_debug_type : Error
  too_long : Error
  invalid_opcode : Error
  invalid_relocation : Error
  missing_symbol : Error
  symbol_collision : Error
  invalid_section_size : Error
  insert_out_of_range : Error
  invalid_metadata : Error
  unhandled_value_size : Error
  symbol_not_found : Error
  too_many_labels : Error
  division_by_zero : Error
  dot_without_counter : Error
  at_out_of_range : Error
  length_error : Error

-- `undefined` is an index past the end of a vector.
pub data Result {ℓ} (A : Type ℓ) : Type ℓ where
  done : A → Result A
  fails : Error → Result A
  undefined : Result A

infixl 5 ◌>>=◌ ◌>>◌
unfoldable pub ◌>>=◌ {ℓ κ} : {A : Type ℓ} {B : Type κ} → Result A → (A → Result B) → Result B
done a >>= f = f a
fails e >>= f = fails e
undefined >>= f = undefined

abbrev pub ◌>>◌ {κ} : {B : Type κ} → Result (Unit {0}) → Result B → Result B
m >> k = m >>= λ _. k

-- `xs[i]` of a vector.
unfoldable pub index {ℓ} : {A : Type ℓ} → List A → ℕ → Result A
index [] i = undefined
index (x ∷ xs) zero = done x
index (x ∷ xs) (suc i) = index xs i

-- `if (test) throw e;`
unfoldable pub fail_if : Bool → Error → Result (Unit {0})
fail_if test e = if test then fails e else done tt
