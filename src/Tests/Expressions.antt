-- ===== src/Tests/Expressions.antt =====
-- The theorems on expressions at concrete ones.
use why.Base.{
  ℕ, ◌≡◌, refl, inl, inr, true, false, none, some, List, [], ◌∷◌, if◌then◌else◌, add64, arith,
  Bool-cases,
}
use why.Object.Result.{done, ◌>>=◌}
use why.Assembler.Expression.{
  Expression, plus, minus, binary, ident, number, Scope, evaluate_node, same_label, has_dot,
  validate, fully_numeric, numeric_result, is_invalid, validate_binary, validate_sum,
  validate_difference, both_numeric, is_symbol, get_symbol,
}
use why.Assembler.Expression.Labels.{moved, KnownWords, evaluate_node-moved}
use why.Assembler.Expression.Relocation.{relocated, occurrences, evaluate_node-addend}

abbrev first_label : List ℕ
first_label = 97 ∷ []

abbrev second_label : List ℕ
second_label = 98 ∷ []

-- The first label at 96, and every other one at 40.
abbrev scope : Scope
scope = record {
  offsets = λ l. if same_label l first_label then some 96 else some 40;
  counter = 0;
  ignore_unknown = false;
}

scope-KnownWords : KnownWords scope
scope-KnownWords l a h = elim (Bool-cases (same_label l first_label)) [
  | inl first ↦
      let found : some 96 ≡ some a = rw first at h in let value : 96 ≡ a = cc in omega arith
  | inr other ↦
      let found : some 40 ≡ some a = rw other at h in let value : 40 ≡ a = cc in omega arith
]

-- The distance between two labels.
abbrev difference : Expression
difference = binary minus (ident first_label) (ident second_label)

difference_no_dot : has_dot difference ≡ false
unfolding has_dot
difference_no_dot = refl

difference_numeric : numeric_result (validate difference).result ≡ true
unfolding validate is_invalid validate_binary validate_difference both_numeric fully_numeric
    is_symbol get_symbol numeric_result
difference_numeric = refl

evaluate_node-moved_example :
    evaluate_node (moved 8 scope) none difference ≡ evaluate_node scope none difference
evaluate_node-moved_example =
    evaluate_node-moved 8 scope difference scope-KnownWords refl difference_no_dot
      difference_numeric

abbrev behind : Expression
behind = binary plus (ident first_label) (number 8)

first_label_offset : scope.offsets first_label ≡ some 96
unfolding same_label
first_label_offset = refl

behind_label : (validate behind).label1 ≡ some first_label
unfolding validate is_invalid validate_binary validate_sum both_numeric fully_numeric is_symbol
    get_symbol numeric_result
behind_label = refl

behind-relocated : relocated (validate behind).result ≡ true
unfolding validate is_invalid validate_binary validate_sum both_numeric fully_numeric is_symbol
    get_symbol numeric_result
behind-relocated = refl

behind_once : occurrences first_label behind ≡ 1
unfolding same_label
behind_once = refl

evaluate_node-addend_example :
    evaluate_node scope none behind
    ≡ (evaluate_node scope (some first_label) behind >>= λ v. done (add64 96 v))
evaluate_node-addend_example =
    evaluate_node-addend scope behind first_label 96 first_label_offset (omega arith)
      behind-relocated behind_label behind_once
