-- ===== src/Assembler/Expression/Relocation.antt =====
-- The value of an expression that is relocated: the label's offset and the rest.
use why.Base.{
  ℕ, ◌+◌, ◌≡◌, refl, sym, ap, ◌∙◌, ◌⊎◌, inl, inr, Bool, true, false, ◌||◌, Option, none, some, List,
  [], ◌∷◌, ◌==◌, IsWord, add64, of_bool, arith, Bool-cases,
}
use why.Object.Result.{Result, done, fails, undefined, ◌>>=◌}
use why.Assembler.Expression.{
  Operator, plus, minus, asterisk, slash, percent, Expression, binary, ident, string, dot, number,
  ValidationResult, invalid, label_number_difference, label_number_sum, label, get_symbol,
  is_invalid, without_labels, validate_sum, validate_difference, validate_other, validate_binary,
  validate, is_excluded, combine, Scope, label_value, evaluate_node, same_label,
}
use why.Assembler.Expression.Values.{on_results, evaluate_node-binary, evaluate_node-operands}

-- The results for which the assembler excludes the label from the addend of a relocation.
abbrev pub relocated : ValidationResult → Bool
relocated label = true
relocated label_number_sum = true
relocated label_number_difference = true
relocated _ = false

abbrev pub occurrences : List ℕ → Expression → ℕ
occurrences l (binary operator left right) = occurrences l left + occurrences l right
occurrences l (ident k) = of_bool (same_label k l)
occurrences l (string k) = of_bool (same_label k l)
occurrences l dot = 0
occurrences l (number n) = 0

same_label_refl : (l : List ℕ) → same_label l l ≡ true
unfolding same_label
same_label_refl [] = refl
same_label_refl (c ∷ l) = let same : (c == c) ≡ true = ground arith in rw same (same_label_refl l)

label_value-absent :
    (s : Scope) (l k : List ℕ)
    → of_bool (same_label k l) ≡ 0
    → label_value s k (some l) ≡ label_value s k none
unfolding label_value is_excluded
label_value-absent s l k h = elim (Bool-cases (same_label k l)) [
  | inl same ↦ let no : of_bool true ≡ 0 = rw same at h in absurd (omega arith)
  | inr other ↦ rw other refl
]

-- A label that does not occur may be excluded.
evaluate_node-absent :
    (s : Scope) (l : List ℕ) (e : Expression)
    → occurrences l e ≡ 0
    → evaluate_node s (some l) e ≡ evaluate_node s none e
evaluate_node-absent s l (binary operator left right) h =
    evaluate_node-operands s s (some l) none operator left right
      (evaluate_node-absent s l left (omega arith)) (evaluate_node-absent s l right (omega arith))
evaluate_node-absent s l (ident k) h = unfold evaluate_node in label_value-absent s l k h
evaluate_node-absent s l (string k) h = unfold evaluate_node in label_value-absent s l k h
evaluate_node-absent s l dot h = unfold evaluate_node in refl
evaluate_node-absent s l (number n) h = unfold evaluate_node in refl

-- The symbol that is the label.
the_label :
    (e : Expression) (l : List ℕ)
    → get_symbol e ≡ some l
    → (occurrences l e ≡ 1)
      × ((s : Scope) (x : Option (List ℕ)) → evaluate_node s x e ≡ label_value s l x)
unfolding get_symbol evaluate_node
the_label (ident k) l h =
    let same : k ≡ l = cc in
    (
      ap (λ (m : List ℕ). of_bool (same_label m l)) same ∙ ap of_bool (same_label_refl l),
      λ s x. ap (λ (m : List ℕ). label_value s m x) same,
    )
the_label (string k) l h =
    let same : k ≡ l = cc in
    (
      ap (λ (m : List ℕ). of_bool (same_label m l)) same ∙ ap of_bool (same_label_refl l),
      λ s x. ap (λ (m : List ℕ). label_value s m x) same,
    )
the_label (binary operator left right) l h = cc
the_label dot l h = cc
the_label (number n) l h = cc

module _ (left right : Expression) (l r : ValidationResult) (found : List ℕ) where
  sum_forms :
      relocated (validate_sum left right l r).result ≡ true
      → (validate_sum left right l r).label1 ≡ some found
      → (get_symbol left ≡ some found) ⊎ (get_symbol right ≡ some found)
  unfolding validate_sum without_labels
  sum_forms h e = ground arith

  difference_forms :
      relocated (validate_difference left right l r).result ≡ true
      → (validate_difference left right l r).label1 ≡ some found
      → get_symbol left ≡ some found
  unfolding validate_difference without_labels
  difference_forms h e = ground arith

  other_forms : relocated (validate_other left right l r).result ≡ false
  unfolding validate_other without_labels
  other_forms = ground arith

-- A known label's part of a sum or a difference, whatever the other operand gives.
sum_left :
    (a : ℕ) (rest : Result ℕ)
    → on_results plus (done a) rest ≡ (on_results plus (done 0) rest >>= λ v. done (add64 a v))
unfolding ◌>>=◌ combine
sum_left a (done b) = ap done (omega arith)
sum_left a (fails e) = refl
sum_left a undefined = refl

sum_right :
    (a : ℕ) (rest : Result ℕ)
    → on_results plus rest (done a) ≡ (on_results plus rest (done 0) >>= λ v. done (add64 a v))
unfolding ◌>>=◌ combine
sum_right a (done b) = ap done (omega arith)
sum_right a (fails e) = refl
sum_right a undefined = refl

difference_left :
    (a : ℕ) (rest : Result ℕ)
    → on_results minus (done a) rest ≡ (on_results minus (done 0) rest >>= λ v. done (add64 a v))
unfolding ◌>>=◌ combine
difference_left a (done b) = ap done (omega arith)
difference_left a (fails e) = refl
difference_left a undefined = refl

module _ (s : Scope) (l : List ℕ) (a : ℕ) (known : s.offsets l ≡ some a) where
  label_values : (label_value s l none ≡ done a) × (label_value s l (some l) ≡ done 0)
  unfolding label_value is_excluded
  label_values = (rw known refl, rw (same_label_refl l) refl)

  -- The label stands on the left, or on the right, and nowhere else.
  module _ (operator : Operator) (left right : Expression)
      (once : occurrences l left + occurrences l right ≡ 1) where
    on_left :
        get_symbol left ≡ some l
        → (evaluate_node s none (binary operator left right)
            ≡ on_results operator (done a) (evaluate_node s none right))
          × (evaluate_node s (some l) (binary operator left right)
              ≡ on_results operator (done 0) (evaluate_node s none right))
    on_left h =
        let (one, values) = the_label left l h in
        let absent = evaluate_node-absent s l right (omega arith) in
        (
          evaluate_node-binary s none operator left right ∙ rw (values s none, label_values.0) refl,
          evaluate_node-binary s (some l) operator left right
              ∙ rw (values s (some l), label_values.1, absent) refl,
        )

    on_right :
        get_symbol right ≡ some l
        → (evaluate_node s none (binary operator left right)
            ≡ on_results operator (evaluate_node s none left) (done a))
          × (evaluate_node s (some l) (binary operator left right)
              ≡ on_results operator (evaluate_node s none left) (done 0))
    on_right h =
        let (one, values) = the_label right l h in
        let absent = evaluate_node-absent s l left (omega arith) in
        (
          evaluate_node-binary s none operator left right ∙ rw (values s none, label_values.0) refl,
          evaluate_node-binary s (some l) operator left right
              ∙ rw (values s (some l), label_values.1, absent) refl,
        )

valid_binary :
    (operator : Operator) (left right : Expression)
    → relocated (validate (binary operator left right)).result ≡ true
    → validate (binary operator left right)
      ≡ validate_binary operator left right (validate left).result (validate right).result
unfolding validate without_labels
valid_binary operator left right h =
    elim (Bool-cases (is_invalid (validate left).result || is_invalid (validate right).result)) [
      | inl bad ↦ let no : relocated invalid ≡ true = rw bad at h in cc
      | inr good ↦ rw good refl
    ]

module _ (left right : Expression) where
  plus_forms :
      (l : List ℕ)
      → relocated (validate (binary plus left right)).result ≡ true
      → (validate (binary plus left right)).label1 ≡ some l
      → (get_symbol left ≡ some l) ⊎ (get_symbol right ≡ some l)
  unfolding validate_binary
  plus_forms l h e =
      let valid = valid_binary plus left right h in
      sum_forms left right (validate left).result (validate right).result l (rw valid at h)
        (rw valid at e)

  minus_forms :
      (l : List ℕ)
      → relocated (validate (binary minus left right)).result ≡ true
      → (validate (binary minus left right)).label1 ≡ some l
      → get_symbol left ≡ some l
  unfolding validate_binary
  minus_forms l h e =
      let valid = valid_binary minus left right h in
      difference_forms left right (validate left).result (validate right).result l (rw valid at h)
        (rw valid at e)

  abbrev NoRelocation : Operator → Type 0
  NoRelocation operator =
      relocated (validate (binary operator left right)).result ≡ true → true ≡ false

  asterisk_forms : NoRelocation asterisk
  unfolding validate_binary
  asterisk_forms h =
      let found = rw (valid_binary asterisk left right h) at h in
      sym found ∙ other_forms left right (validate left).result (validate right).result []

  slash_forms : NoRelocation slash
  unfolding validate_binary
  slash_forms h =
      let found = rw (valid_binary slash left right h) at h in
      sym found ∙ other_forms left right (validate left).result (validate right).result []

  percent_forms : NoRelocation percent
  unfolding validate_binary
  percent_forms h =
      let found = rw (valid_binary percent left right h) at h in
      sym found ∙ other_forms left right (validate left).result (validate right).result []

-- An expression that is the label itself.
symbol_addend :
    (s : Scope) (e : Expression) (l : List ℕ) (a : ℕ)
    → s.offsets l ≡ some a
    → IsWord a
    → get_symbol e ≡ some l
    → evaluate_node s none e ≡ (evaluate_node s (some l) e >>= λ v. done (add64 a v))
unfolding ◌>>=◌
symbol_addend s e l a known word h =
    let (one, values) = the_label e l h in
    let (whole, part) = label_values s l a known in
    rw (values s none, values s (some l), whole, part) (ap done (omega arith))

label_of_ident :
    (k l : List ℕ) → (validate (ident k)).label1 ≡ some l → get_symbol (ident k) ≡ some l
unfolding validate get_symbol
label_of_ident k l e = e

label_of_string :
    (k l : List ℕ) → (validate (string k)).label1 ≡ some l → get_symbol (string k) ≡ some l
unfolding validate get_symbol
label_of_string k l e = e

-- The value of an expression that is relocated by a label which occurs in it once is the label's offset
-- plus the value without the label, which is what the relocation entry keeps as its addend; errors are
-- the same in both.
pub evaluate_node-addend :
    (s : Scope) (e : Expression) (l : List ℕ) (a : ℕ)
    → s.offsets l ≡ some a
    → IsWord a
    → relocated (validate e).result ≡ true
    → (validate e).label1 ≡ some l
    → occurrences l e ≡ 1
    → evaluate_node s none e ≡ (evaluate_node s (some l) e >>= λ v. done (add64 a v))
evaluate_node-addend s (ident k) l a known word h e once =
    symbol_addend s (ident k) l a known word (label_of_ident k l e)
evaluate_node-addend s (string k) l a known word h e once =
    symbol_addend s (string k) l a known word (label_of_string k l e)
evaluate_node-addend s dot l a known word h e once = absurd (omega arith)
evaluate_node-addend s (number n) l a known word h e once = absurd (omega arith)
evaluate_node-addend s (binary plus left right) l a known word h e once =
    elim (plus_forms left right l h e) [
      | inl on_the_left ↦
          let (whole, part) = on_left s l a known plus left right once on_the_left in
          whole
          ∙ sum_left a (evaluate_node s none right)
          ∙ ap (λ (v : Result ℕ). v >>= λ n. done (add64 a n)) (sym part)
      | inr on_the_right ↦
          let (whole, part) = on_right s l a known plus left right once on_the_right in
          whole
          ∙ sum_right a (evaluate_node s none left)
          ∙ ap (λ (v : Result ℕ). v >>= λ n. done (add64 a n)) (sym part)
    ]
evaluate_node-addend s (binary minus left right) l a known word h e once =
    let (whole, part) = on_left s l a known minus left right once (minus_forms left right l h e) in
    whole
    ∙ difference_left a (evaluate_node s none right)
    ∙ ap (λ (v : Result ℕ). v >>= λ n. done (add64 a n)) (sym part)
evaluate_node-addend s (binary asterisk left right) l a known word h e once =
    let no = asterisk_forms left right h in cc
evaluate_node-addend s (binary slash left right) l a known word h e once =
    let no = slash_forms left right h in cc
evaluate_node-addend s (binary percent left right) l a known word h e once =
    let no = percent_forms left right h in cc
