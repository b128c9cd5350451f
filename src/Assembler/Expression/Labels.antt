-- ===== src/Assembler/Expression/Labels.antt =====
-- Labels in expressions: what a relocation needs of the result of a validation.
use why.Base.{
  ℕ, ◌^◌, ◌<◌, ◌≡◌, refl, sym, ap, ◌∙◌, ◌⊎◌, inl, inr, true, false, ◌||◌, Option, none, some, List,
  add64, sub64, arith, Bool-cases,
}
use why.Object.Result.{Result, done, ◌>>=◌}
use why.Assembler.Expression.{
  Operator, plus, minus, asterisk, slash, percent, Expression, binary, ident, string, dot, number,
  ValidationResult, invalid, fully_numeric, has_dot, is_symbol, get_symbol, is_invalid,
  numeric_result, without_labels, both_numeric, validate_sum, validate_difference, validate_other,
  validate_binary, validate, is_excluded, combine, Scope, label_value, evaluate_node,
}
use why.Assembler.Expression.Values.{
  on_results, evaluate_node-binary, evaluate_node-operands, or_false, evaluate_node-fully_numeric,
  fully_numeric-has_dot,
}

-- Every label that is known moves by `d`.
abbrev pub moved : ℕ → Scope → Scope
moved d s = record s {
  offsets = λ l. elim (s.offsets l) [ some a ↦ some (add64 a d) | none ↦ none ];
}

-- The value of a symbol, known or not.
symbol_value :
    (e : Expression)
    → is_symbol e ≡ true
    → (l : List ℕ) × (get_symbol e ≡ some l)
      × ((s : Scope) (x : Option (List ℕ)) → evaluate_node s x e ≡ label_value s l x)
unfolding is_symbol get_symbol evaluate_node
symbol_value (ident l) h = (l, refl, λ s x. refl)
symbol_value (string l) h = (l, refl, λ s x. refl)
symbol_value (binary operator left right) h = cc
symbol_value dot h = cc
symbol_value (number n) h = cc

difference_moved : (a b d : ℕ) → b < 2 ^ 64 → sub64 (add64 a d) (add64 b d) ≡ sub64 a b
difference_moved a b d h = omega arith

-- When a binary expression is valid as a number: both operands are, or it is a difference of labels.
module _ (left right : Expression) (l r : ValidationResult) where
  abbrev Numeric : Operator → Type 0
  Numeric minus =
      (both_numeric left right l r ≡ true) ⊎ ((is_symbol left ≡ true) × (is_symbol right ≡ true))
  Numeric operator = both_numeric left right l r ≡ true

  sum_cases :
      numeric_result (validate_sum left right l r).result ≡ true
      → both_numeric left right l r ≡ true
  unfolding validate_sum numeric_result without_labels
  sum_cases h = ground arith

  other_cases :
      numeric_result (validate_other left right l r).result ≡ true
      → both_numeric left right l r ≡ true
  unfolding validate_other numeric_result without_labels
  other_cases h = ground arith

  difference_cases :
      numeric_result (validate_difference left right l r).result ≡ true
      → (both_numeric left right l r ≡ true) ⊎ ((is_symbol left ≡ true) × (is_symbol right ≡ true))
  unfolding validate_difference numeric_result without_labels
  difference_cases h = ground arith

  numeric_cases :
      (operator : Operator)
      → numeric_result (validate_binary operator left right l r).result ≡ true
      → (both_numeric left right l r ≡ true)
        ⊎ ((operator ≡ minus) × (is_symbol left ≡ true) × (is_symbol right ≡ true))
  unfolding validate_binary
  numeric_cases plus h = inl (sum_cases h)
  numeric_cases asterisk h = inl (other_cases h)
  numeric_cases slash h = inl (other_cases h)
  numeric_cases percent h = inl (other_cases h)
  numeric_cases minus h = elim (difference_cases h) [
    | inl both ↦ inl both
    | inr (left_symbol, right_symbol) ↦ inr (refl, left_symbol, right_symbol)
  ]

  both_cases :
      both_numeric left right l r ≡ true
      → ((fully_numeric left true ≡ true) × (fully_numeric right true ≡ true))
        ⊎ ((numeric_result l ≡ true) × (numeric_result r ≡ true))
  unfolding both_numeric
  both_cases h = ground arith

valid_operands :
    (operator : Operator) (left right : Expression)
    → numeric_result (validate (binary operator left right)).result ≡ true
    → numeric_result
        (validate_binary operator left right (validate left).result (validate right).result).result
      ≡ true
unfolding validate
valid_operands operator left right h =
    elim (Bool-cases (is_invalid (validate left).result || is_invalid (validate right).result)) [
      | inl bad ↦
          let no : numeric_result invalid ≡ true = rw bad at h in unfold numeric_result in cc
      | inr good ↦ rw good at h
    ]

-- The labels that are known have words for offsets.
abbrev pub KnownWords : Scope → Type 0
KnownWords s = (l : List ℕ) (a : ℕ) → s.offsets l ≡ some a → a < 2 ^ 64

label_difference_moved :
    (d : ℕ) (s : Scope) (k l : List ℕ)
    → KnownWords s
    → s.ignore_unknown ≡ false
    → on_results minus (label_value (moved d s) k none) (label_value (moved d s) l none)
      ≡ on_results minus (label_value s k none) (label_value s l none)
unfolding label_value is_excluded combine ◌>>=◌
label_difference_moved d s k l words strict = by_offsets (s.offsets k) (s.offsets l) refl refl
  where
    by_offsets :
        (a b : Option ℕ)
        → s.offsets k ≡ a
        → s.offsets l ≡ b
        → on_results minus (label_value (moved d s) k none) (label_value (moved d s) l none)
          ≡ on_results minus (label_value s k none) (label_value s l none)
    by_offsets (some a) (some b) e f = rw (e, f) (ap done (difference_moved a b d (words l b f)))
    by_offsets (some a) none e f = rw (e, f, strict) refl
    by_offsets none (some b) e f = rw (e, f, strict) refl
    by_offsets none none e f = rw (e, f, strict) refl

symbols_moved :
    (d : ℕ) (s : Scope) (operator : Operator) (left right : Expression)
    → KnownWords s
    → s.ignore_unknown ≡ false
    → operator ≡ minus
    → is_symbol left ≡ true
    → is_symbol right ≡ true
    → evaluate_node (moved d s) none (binary operator left right)
      ≡ evaluate_node s none (binary operator left right)
symbols_moved d s operator left right words strict same h k =
    let (l, _, left_value) = symbol_value left h in
    let (m, _, right_value) = symbol_value right k in
    let there =
      evaluate_node-binary (moved d s) none minus left right
      ∙ ap (λ (v : Result ℕ). on_results minus v (evaluate_node (moved d s) none right))
          (left_value (moved d s) none)
      ∙ ap (λ (v : Result ℕ). on_results minus (label_value (moved d s) l none) v)
          (right_value (moved d s) none) in
    let here =
      evaluate_node-binary s none minus left right
      ∙ ap (λ (v : Result ℕ). on_results minus v (evaluate_node s none right)) (left_value s none)
      ∙ ap (λ (v : Result ℕ). on_results minus (label_value s l none) v) (right_value s none) in
    rw same (there ∙ label_difference_moved d s l m words strict ∙ sym here)

whole_numeric :
    (operator : Operator) (left right : Expression)
    → fully_numeric left false ≡ true
    → fully_numeric right false ≡ true
    → fully_numeric (binary operator left right) false ≡ true
unfolding fully_numeric
whole_numeric operator left right h k = rw (h, k) refl

-- An expression that is valid as a number, and has no dot, keeps its value when all labels move by the
-- same distance; that a label is unknown is an error in both cases.
pub evaluate_node-moved :
    (d : ℕ) (s : Scope) (e : Expression)
    → KnownWords s
    → s.ignore_unknown ≡ false
    → has_dot e ≡ false
    → numeric_result (validate e).result ≡ true
    → evaluate_node (moved d s) none e ≡ evaluate_node s none e
unfolding has_dot
evaluate_node-moved d s (binary operator left right) words strict no_dot numeric =
    let (dl, dr) = or_false (has_dot left) (has_dot right) no_dot in
    let l = (validate left).result in
    let r = (validate right).result in
    elim (numeric_cases left right l r operator (valid_operands operator left right numeric)) [
      | inr (same, left_symbol, right_symbol) ↦
          symbols_moved d s operator left right words strict same left_symbol right_symbol
      | inl both ↦ elim (both_cases left right l r both) [
        | inl (ln, rn) ↦
            evaluate_node-fully_numeric (binary operator left right) (moved d s) s none none (
              whole_numeric operator left right (fully_numeric-has_dot left ln dl)
                (fully_numeric-has_dot right rn dr))
        | inr (ln, rn) ↦
            evaluate_node-operands (moved d s) s none none operator left right
              (evaluate_node-moved d s left words strict dl ln)
              (evaluate_node-moved d s right words strict dr rn)
      ]
    ]
evaluate_node-moved d s (ident l) words strict no_dot numeric =
    unfold validate in unfold numeric_result in cc
evaluate_node-moved d s (string l) words strict no_dot numeric =
    unfold validate in unfold numeric_result in cc
evaluate_node-moved d s dot words strict no_dot numeric = cc
evaluate_node-moved d s (number n) words strict no_dot numeric = unfold evaluate_node in refl
