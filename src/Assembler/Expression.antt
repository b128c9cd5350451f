-- ===== src/Assembler/Expression.antt =====
-- The expressions of directives: wasmc/include/wasm/Expression.h and wasmc/src/wasm/Expression.cpp.
-- A label is the list of its characters, and a `long` the pattern of 64 bits; sums, differences and
-- products wrap. The parser gives the binary operators two operands.
pub mod Labels
pub mod Values
pub mod Relocation
use why.Base.{
  ℕ, zero, suc, ◌+◌, ◌-◌, ◌*◌, ◌/◌, ◌%◌, ◌^◌, Bool, true, false, not, ◌&&◌, ◌||◌, Option, none,
  some, List, [], ◌∷◌, ◌++◌, ltb, ◌==◌, if◌then◌else◌, add64, sub64,
}
use why.Object.Result.{Error, Result, done, fails, fail_if, ◌>>=◌, ◌>>◌}

-- The symbols of the nodes that a well-formed expression has.
pub data Operator : Type 0 where
  plus minus asterisk slash percent : Operator

pub data Expression : Type 0 where
  binary : Operator → Expression → Expression → Expression
  ident : List ℕ → Expression
  string : List ℕ → Expression
  dot : Expression
  number : ℕ → Expression

pub data ValidationResult : Type 0 where
  invalid pure_number double_label_difference dot_label_difference : ValidationResult
  label_number_difference label_number_sum label : ValidationResult

-- What `validate` returns, and its two out-parameters.
pub record Validation : Type 0 where
  pub result : ValidationResult
  pub label1 : Option (List ℕ)
  pub label2 : Option (List ℕ)

-- Strings are interned: the comparison of pointers is one of characters.
unfoldable pub same_label : List ℕ → List ℕ → Bool
same_label [] [] = true
same_label [] (b ∷ bs) = false
same_label (a ∷ as') [] = false
same_label (a ∷ as') (b ∷ bs) = (a == b) && same_label as' bs

unfoldable pub insert_label : List ℕ → List (List ℕ) → List (List ℕ)
unfolding same_label
insert_label l [] = l ∷ []
insert_label l (k ∷ set) =
    let rest = insert_label l set in if same_label l k then k ∷ set else k ∷ rest

-- The set that findLabels fills.
unfoldable pub find_labels : Expression → List (List ℕ) → List (List ℕ)
unfolding insert_label
find_labels (binary operator left right) set = find_labels right (find_labels left set)
find_labels (ident l) set = insert_label l set
find_labels (string l) set = insert_label l set
find_labels dot set = set
find_labels (number n) set = set

unfoldable pub label_count : Expression → ℕ
label_count (binary operator left right) = label_count left + label_count right
label_count (ident l) = 1
label_count (string l) = 1
label_count dot = 0
label_count (number n) = 0

unfoldable pub check_label_count : Expression → ℕ → Result (Unit {0})
unfolding label_count fail_if
check_label_count e max_count = fail_if (ltb max_count (label_count e)) Error.too_many_labels

unfoldable pub fully_numeric : Expression → Bool → Bool
fully_numeric (binary operator left right) dot_okay =
    fully_numeric left dot_okay && fully_numeric right dot_okay
fully_numeric (ident l) dot_okay = false
fully_numeric (string l) dot_okay = false
fully_numeric dot dot_okay = dot_okay
fully_numeric (number n) dot_okay = true

unfoldable pub is_symbol : Expression → Bool
is_symbol (ident l) = true
is_symbol (string l) = true
is_symbol _ = false

unfoldable pub get_symbol : Expression → Option (List ℕ)
get_symbol (ident l) = some l
get_symbol (string l) = some l
get_symbol _ = none

unfoldable pub is_dot : Expression → Bool
is_dot dot = true
is_dot _ = false

unfoldable pub has_dot : Expression → Bool
has_dot (binary operator left right) = has_dot left || has_dot right
has_dot (ident l) = false
has_dot (string l) = false
has_dot dot = true
has_dot (number n) = false

unfoldable pub is_invalid : ValidationResult → Bool
is_invalid invalid = true
is_invalid _ = false

-- The test of resultIsNumeric.
unfoldable pub numeric_result : ValidationResult → Bool
numeric_result pure_number = true
numeric_result double_label_difference = true
numeric_result _ = false

unfoldable pub without_labels : ValidationResult → Validation
without_labels r = record { result = r; label1 = none; label2 = none }

-- The cases of validate at a sum, a difference and the other operators, where `l` and `r` are the
-- results of the operands, neither of which is invalid.
unfoldable pub both_numeric : Expression → Expression → ValidationResult → ValidationResult → Bool
unfolding fully_numeric numeric_result
both_numeric left right l r =
    (fully_numeric left true && fully_numeric right true) || (numeric_result l && numeric_result r)

unfoldable pub validate_sum :
    Expression → Expression → ValidationResult → ValidationResult → Validation
unfolding both_numeric without_labels is_symbol get_symbol fully_numeric
validate_sum left right l r =
    if both_numeric left right l r
    then without_labels pure_number
    else if is_symbol left && fully_numeric right true
    then record { result = label_number_sum; label1 = get_symbol left; label2 = none }
    else if fully_numeric left true && is_symbol right
    then record { result = label_number_sum; label1 = get_symbol right; label2 = none }
    else without_labels invalid

unfoldable pub validate_difference :
    Expression → Expression → ValidationResult → ValidationResult → Validation
unfolding both_numeric without_labels is_symbol get_symbol numeric_result is_dot
validate_difference left right l r =
    if both_numeric left right l r
    then without_labels pure_number
    else if is_symbol left
    then (if numeric_result r
        then record { result = label_number_difference; label1 = get_symbol left; label2 = none }
        else if is_symbol right
        then record {
          result = double_label_difference;
          label1 = get_symbol left;
          label2 = get_symbol right;
        }
        else without_labels invalid)
    else if is_dot left && is_symbol right
    then record { result = dot_label_difference; label1 = get_symbol right; label2 = none }
    else without_labels invalid

unfoldable pub validate_other :
    Expression → Expression → ValidationResult → ValidationResult → Validation
unfolding both_numeric without_labels
validate_other left right l r =
    without_labels (if both_numeric left right l r then pure_number else invalid)

unfoldable pub validate_binary :
    Operator → Expression → Expression → ValidationResult → ValidationResult → Validation
unfolding validate_sum validate_difference validate_other
validate_binary plus = validate_sum
validate_binary minus = validate_difference
validate_binary asterisk = validate_other
validate_binary slash = validate_other
validate_binary percent = validate_other

-- Expression::validate.
unfoldable pub validate : Expression → Validation
unfolding is_invalid without_labels validate_binary
validate (binary operator left right) =
    let l = (validate left).result in
    let r = (validate right).result in
    if is_invalid l || is_invalid r
    then without_labels invalid
    else validate_binary operator left right l r
validate (ident l) = record { result = label; label1 = some l; label2 = none }
validate (string l) = record { result = label; label1 = some l; label2 = none }
validate dot = without_labels pure_number
validate (number n) = without_labels pure_number

-- `exclude && label == exclude`.
unfoldable pub is_excluded : List ℕ → Option (List ℕ) → Bool
unfolding same_label
is_excluded l none = false
is_excluded l (some excluded) = same_label l excluded

-- The result of an operator on values. The divisor is a `size_t`, so that the division is unsigned.
unfoldable pub combine : Operator → ℕ → ℕ → Result ℕ
unfolding fail_if ◌>>=◌
combine plus a b = done (add64 a b)
combine minus a b = done (sub64 a b)
combine asterisk a b = done (a * b % 2 ^ 64)
combine slash a b = do fail_if (b == 0) Error.division_by_zero; done (a / b)
combine percent a b = do fail_if (b == 0) Error.division_by_zero; done (a % b)

-- What the assembler knows of the labels, and the other arguments of evaluate.
pub record Scope : Type 0 where
  pub offsets : List ℕ → Option ℕ
  pub counter : ℕ
  pub ignore_unknown : Bool

unfoldable pub label_value : Scope → List ℕ → Option (List ℕ) → Result ℕ
unfolding is_excluded
label_value s l exclude = if is_excluded l exclude then done 0 else elim (s.offsets l) [
  | some offset ↦ done offset
  | none ↦ if s.ignore_unknown then done 0 else fails Error.symbol_not_found
]

-- The evaluation of a node. A division evaluates its divisor first.
unfoldable pub evaluate_node : Scope → Option (List ℕ) → Expression → Result ℕ
unfolding combine label_value ◌>>=◌
evaluate_node s exclude (binary slash left right) = do
  b ← evaluate_node s exclude right
  fail_if (b == 0) Error.division_by_zero
  a ← evaluate_node s exclude left
  combine slash a b
evaluate_node s exclude (binary percent left right) = do
  b ← evaluate_node s exclude right
  fail_if (b == 0) Error.division_by_zero
  a ← evaluate_node s exclude left
  combine percent a b
evaluate_node s exclude (binary plus left right) = do
  a ← evaluate_node s exclude left
  b ← evaluate_node s exclude right
  combine plus a b
evaluate_node s exclude (binary minus left right) = do
  a ← evaluate_node s exclude left
  b ← evaluate_node s exclude right
  combine minus a b
evaluate_node s exclude (binary asterisk left right) = do
  a ← evaluate_node s exclude left
  b ← evaluate_node s exclude right
  combine asterisk a b
evaluate_node s exclude (ident l) = label_value s l exclude
evaluate_node s exclude (string l) = label_value s l exclude
evaluate_node s exclude (number n) = done n
evaluate_node s exclude dot = done s.counter

-- Expression::evaluate.
unfoldable pub evaluate : Scope → Option (List ℕ) → Expression → Result ℕ
unfolding evaluate_node has_dot fail_if ◌>>=◌
evaluate s exclude e = do
  fail_if (has_dot e && (s.counter == 2 ^ 64 - 1)) Error.dot_without_counter
  evaluate_node s exclude e
