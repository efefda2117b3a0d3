-- ===== src/Prelude/Sums.antt =====
-- Sums of lists of amounts (`xs.reduce((a, b) => a + b, 0n)`), and the floors and remainders of a
-- pro-rata division.
use stonkfolio.Prelude.Lists.{length, All}
use Prim.Native.Nat.{ℕ, zero, suc, ◌+◌, ◌*◌, ◌/◌, ◌%◌, ◌-◌, ◌≤◌, ◌<◌}
use mathlib.Core.Path.{◌≡◌, ap, ◌∙◌}
use mathlib.Core.List.{List, [], ◌∷◌, ◌++◌, map}
use native.Mathlib.Nat.{add-mul, mod-lt, div-add-mod}
use native.Mathlib.Omega.{arith}

unfoldable pub sum : List ℕ → ℕ
sum [] = 0
sum (x ∷ xs) = x + sum xs

pub sum-append : (xs ys : List ℕ) → sum (xs ++ ys) ≡ sum xs + sum ys
unfolding sum
sum-append [] ys = omega arith
sum-append (x ∷ xs) ys = omega (arith, sum-append xs ys)

-- How many entries are not 0.
unfoldable pub positives : List ℕ → ℕ
positives [] = 0
positives (zero ∷ xs) = positives xs
positives (suc x ∷ xs) = suc (positives xs)

module _ (total whole : ℕ) where
  abbrev pub floors : List ℕ → List ℕ
  floors weights = map (λ w. total * w / whole) weights

  abbrev pub leftovers : List ℕ → List ℕ
  leftovers weights = map (λ w. total * w % whole) weights

  -- Floors and remainders together make up the product.
  pub floors-leftovers :
      (weights : List ℕ)
      → sum (floors weights) * whole + sum (leftovers weights) ≡ total * sum weights
  unfolding sum
  floors-leftovers [] = omega arith
  floors-leftovers (w ∷ ws) = grind (arith, floors-leftovers ws, div-add-mod (total * w) whole)

  pub leftovers-lt : 0 < whole → (weights : List ℕ) → All (λ r. r < whole) (leftovers weights)
  leftovers-lt h [] = tt
  leftovers-lt h (w ∷ ws) = (mod-lt _ h, leftovers-lt h ws)

  pub sum-le-positives :
      (rs : List ℕ) → All (λ r. r < whole) rs → sum rs + positives rs ≤ positives rs * whole
  unfolding sum positives
  sum-le-positives [] h = omega arith
  sum-le-positives (zero ∷ rs) h = omega (arith, sum-le-positives rs h.1)
  sum-le-positives (suc r ∷ rs) h = omega (arith, sum-le-positives rs h.1)

pub positives-le-length : (xs : List ℕ) → positives xs ≤ length xs
unfolding positives
positives-le-length [] = omega arith
positives-le-length (zero ∷ xs) = omega (arith, positives-le-length xs)
positives-le-length (suc x ∷ xs) = omega (arith, positives-le-length xs)

le_of_product : (a b d : ℕ) → 0 < d → a * d ≤ b * d → a ≤ b
le_of_product a b d h p = grind arith

lt_of_product : (a p d : ℕ) → 0 < d → a * d + suc p ≤ suc p * d → a ≤ p
lt_of_product a p d h k = grind arith

le-pred_of_product : (a p d : ℕ) → 0 < d → a * d + p ≤ p * d → a ≤ p - 1
le-pred_of_product a zero d h k = le_of_product a 0 d h (omega (arith, k))
le-pred_of_product a (suc p) d h k = omega (arith, lt_of_product a p d h (omega (arith, k)))

quota_bounds :
    (f r p t d : ℕ) → 0 < d → f * d + r ≡ t * d → r + p ≤ p * d → (f ≤ t) × (t - f ≤ p - 1)
quota_bounds f r p t d h e k =
    let fits = le_of_product f t d h (omega arith) in
    let parts : t * d ≡ f * d + (t - f) * d = ap (λ n. n * d) (omega arith) ∙ add-mul f (t - f) d in
    (fits, le-pred_of_product (t - f) p d h (omega (arith, parts)))

-- The floors stay within the total, and fall short of it by less than one lamport a bucket.
pub floors_bounds :
    (total d : ℕ) (shares : List ℕ)
    → 0 < d
    → sum shares ≡ d
    → (sum (floors total d shares) ≤ total)
      × (total - sum (floors total d shares) ≤ positives (leftovers total d shares) - 1)
floors_bounds total d shares h e =
    let product = floors-leftovers total d shares in
    let whole = ap (◌*◌ total) e in
    let below =
      sum-le-positives total d (leftovers total d shares) (leftovers-lt total d h shares) in
    quota_bounds (sum (floors total d shares)) (sum (leftovers total d shares))
      (positives (leftovers total d shares)) total d h (product ∙ whole) below
