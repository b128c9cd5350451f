-- ===== src/Assembler/Expression/Values.antt =====
-- What the value of an expression depends on.
use why.Base.{ℕ, ◌≡◌, refl, Bool, true, false, ◌&&◌, ◌||◌, Option, List, ◌==◌}
use why.Object.Result.{Error, Result, fail_if, ◌>>=◌}
use why.Assembler.Expression.{
  Operator, plus, minus, asterisk, slash, percent, Expression, binary, ident, string, dot, number,
  fully_numeric, has_dot, combine, Scope, evaluate_node,
}

-- An operator on the outcomes of its operands, in the order in which they are evaluated.
abbrev pub on_results : Operator → Result ℕ → Result ℕ → Result ℕ
on_results slash ra rb =
    rb >>= λ b. fail_if (b == 0) Error.division_by_zero >>= λ _. ra >>= λ a. combine slash a b
on_results percent ra rb =
    rb >>= λ b. fail_if (b == 0) Error.division_by_zero >>= λ _. ra >>= λ a. combine percent a b
on_results plus ra rb = ra >>= λ a. rb >>= λ b. combine plus a b
on_results minus ra rb = ra >>= λ a. rb >>= λ b. combine minus a b
on_results asterisk ra rb = ra >>= λ a. rb >>= λ b. combine asterisk a b

pub evaluate_node-binary :
    (s : Scope) (x : Option (List ℕ)) (operator : Operator) (left right : Expression)
    → evaluate_node s x (binary operator left right)
      ≡ on_results operator (evaluate_node s x left) (evaluate_node s x right)
unfolding evaluate_node
evaluate_node-binary s x plus left right = refl
evaluate_node-binary s x minus left right = refl
evaluate_node-binary s x asterisk left right = refl
evaluate_node-binary s x slash left right = refl
evaluate_node-binary s x percent left right = refl

-- An operator whose operands have equal outcomes.
pub evaluate_node-operands :
    (s t : Scope) (x y : Option (List ℕ)) (operator : Operator) (left right : Expression)
    → evaluate_node s x left ≡ evaluate_node t y left
    → evaluate_node s x right ≡ evaluate_node t y right
    → evaluate_node s x (binary operator left right)
      ≡ evaluate_node t y (binary operator left right)
evaluate_node-operands s t x y operator left right e f =
    rw
      (
        evaluate_node-binary s x operator left right,
        evaluate_node-binary t y operator left right,
        e,
        f,
      )
      refl

pub and_true : (a b : Bool) → (a && b) ≡ true → (a ≡ true) × (b ≡ true)
and_true true b h = (refl, h)
and_true false b h = cc

pub or_false : (a b : Bool) → (a || b) ≡ false → (a ≡ false) × (b ≡ false)
or_false true b h = cc
or_false false b h = (refl, h)

-- An expression of numbers only has the same value whatever the labels, the counter and the excluded
-- label are.
pub evaluate_node-fully_numeric :
    (e : Expression) (s t : Scope) (x y : Option (List ℕ))
    → fully_numeric e false ≡ true
    → evaluate_node s x e ≡ evaluate_node t y e
unfolding fully_numeric
evaluate_node-fully_numeric (binary operator left right) s t x y h =
    let (l, r) = and_true (fully_numeric left false) (fully_numeric right false) h in
    evaluate_node-operands s t x y operator left right (evaluate_node-fully_numeric left s t x y l)
      (evaluate_node-fully_numeric right s t x y r)
evaluate_node-fully_numeric (ident l) s t x y h = cc
evaluate_node-fully_numeric (string l) s t x y h = cc
evaluate_node-fully_numeric dot s t x y h = cc
evaluate_node-fully_numeric (number n) s t x y h = unfold evaluate_node in refl

pub fully_numeric-has_dot :
    (e : Expression)
    → fully_numeric e true ≡ true
    → has_dot e ≡ false
    → fully_numeric e false ≡ true
unfolding fully_numeric has_dot
fully_numeric-has_dot (binary operator left right) h d =
    let (l, r) = and_true (fully_numeric left true) (fully_numeric right true) h in
    let (dl, dr) = or_false (has_dot left) (has_dot right) d in
    rw (fully_numeric-has_dot left l dl, fully_numeric-has_dot right r dr) refl
fully_numeric-has_dot (ident l) h d = cc
fully_numeric-has_dot (string l) h d = cc
fully_numeric-has_dot dot h d = cc
fully_numeric-has_dot (number n) h d = refl
