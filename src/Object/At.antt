-- ===== src/Object/At.antt =====
-- Some words that stand in a vector from an index on.
use why.Base.{ℕ, suc, ◌+◌, ◌≡◌, refl, List, [], ◌∷◌, ◌++◌, length, length-append, arith}
use mathlib.Core.List.{append_assoc}
use why.Object.Result.{done, index}

abbrev pub At : List ℕ → ℕ → List ℕ → Type 0
At raw i [] = Unit
At raw i (w ∷ ws) = (index raw i ≡ done w) × At raw (i + 1) ws

pub At-left : (raw : List ℕ) (i : ℕ) (xs ys : List ℕ) → At raw i (xs ++ ys) → At raw i xs
At-left raw i [] ys h = tt
At-left raw i (x ∷ xs) ys h = (h.0, At-left raw (i + 1) xs ys h.1)

pub At-right :
    (raw : List ℕ) (i : ℕ) (xs ys : List ℕ) → At raw i (xs ++ ys) → At raw (i + length xs) ys
At-right raw i [] ys h = let same : i + 0 ≡ i = omega arith in rw same h
At-right raw i (x ∷ xs) ys h =
    let same : i + suc (length xs) ≡ i + 1 + length xs = omega arith in
    rw same (At-right raw (i + 1) xs ys h.1)

index-append :
    (before : List ℕ) (w : ℕ) (ws : List ℕ) → index (before ++ (w ∷ ws)) (length before) ≡ done w
unfolding index
index-append [] w ws = refl
index-append (b ∷ before) w ws = index-append before w ws

-- A part of a vector stands behind what comes before it.
pub At-append : (before ws after : List ℕ) → At (before ++ (ws ++ after)) (length before) ws
At-append before [] after = tt
At-append before (w ∷ ws) after =
    let next : length (before ++ (w ∷ [])) ≡ length before + 1 = length-append before (w ∷ []) in
    let rest = At-append (before ++ (w ∷ [])) ws after in
    (
      index-append before w (ws ++ after),
      rw (next, append_assoc before (w ∷ []) (ws ++ after)) at rest,
    )
