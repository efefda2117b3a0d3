-- ===== src/Round/Remainder/Fair.antt =====
-- The left-over units never put a smaller holder above a larger one.
use native.Mathlib.Nat.{div-add-mod', div-mul-le_self, le-div_iff_mul-le, le_trans, mul-le-mul_left}
use stonkfolio.Prelude.{
  ℕ, zero, suc, ◌*◌, ◌/◌, ◌%◌, ◌≤◌, ◌<◌, ◌≡◌, ◌⊎◌, refl, ap, true, false, List, length, length-map,
  get_or, arith, inl, inr, dec_lt, All, [], ◌∷◌,
}
use stonkfolio.Prelude.Sort.{sort_by-IsSortedBy, IsSortedBy}
use stonkfolio.Prelude.Sums.{sum, leftovers}
use stonkfolio.Round.Remainder.{
  Weighted, weights, indices, by_remainder, remainder_order, largest_remainder,
}
use stonkfolio.Round.Remainder.Order.{occurs, get_or-map, occurs-take_before}
use stonkfolio.Round.Remainder.Exact.{
  weight_at, quota, spare, bonus, bonus-le, share-bonus, occurs-order,
}

module _ (rs : List ℕ) where
  by_remainder_total : (a b : ℕ) → by_remainder rs a b ≡ false → by_remainder rs b a ≡ true
  by_remainder_total a b h = ground arith

  by_remainder_trans :
      (a b c : ℕ)
      → Unit {0}
      → Unit {0}
      → Unit {0}
      → by_remainder rs a b ≡ true
      → by_remainder rs b c ≡ true
      → by_remainder rs a c ≡ true
  by_remainder_trans a b c _ _ _ h k = ground arith

  All-Unit : (xs : List ℕ) → All (λ _. Unit {0}) xs
  All-Unit [] = tt
  All-Unit (x ∷ xs) = (tt, All-Unit xs)

div_cases : (a b w : ℕ) → 0 < w → b ≤ a → (b / w < a / w) ⊎ (b / w ≡ a / w) × (b % w ≤ a % w)
div_cases a b w h k = elim (dec_lt (b / w) (a / w)) [
  | yes p ↦ inl p
  | no p ↦
      let same : b / w ≡ a / w =
        omega (arith, (le-div_iff_mul-le h).1 (le_trans (div-mul-le_self b w) k)) in
      inr (same, omega (arith, div-add-mod' a w, div-add-mod' b w, ap (λ (q : ℕ). q * w) same))
]

eq_of_div_mod : (a b w : ℕ) → a / w ≡ b / w → a % w ≡ b % w → a ≡ b
eq_of_div_mod a b w p q = omega (arith, div-add-mod' a w, div-add-mod' b w, ap (λ (n : ℕ). n * w) p)

total-eq-zero : (t v w : ℕ) → v < w → t * v ≡ t * w → t ≡ 0
total-eq-zero zero v w h e = refl
total-eq-zero (suc t) v w h e = absurd (grind arith)

module _ (total : ℕ) (pool : List Weighted) (heavy : 0 < sum (weights pool)) where
  rest_at : ℕ → ℕ
  rest_at i = total * weight_at pool i % sum (weights pool)

  order-IsSortedBy :
      IsSortedBy
        (by_remainder (leftovers total (sum (weights pool)) (weights pool)))
        (remainder_order total pool)
  unfolding remainder_order
  order-IsSortedBy =
      let rs = leftovers total (sum (weights pool)) (weights pool) in
      sort_by-IsSortedBy (by_remainder rs) (λ _. Unit {0}) (by_remainder_total rs)
        (by_remainder_trans rs) (indices 0 pool) (All-Unit rs (indices 0 pool))

  rest_at_lem :
      (i : ℕ)
      → i < length pool
      → get_or (leftovers total (sum (weights pool)) (weights pool)) i 0 ≡ rest_at i
  unfolding rest_at
  rest_at_lem i h =
      get_or-map (λ w. total * w % sum (weights pool)) (weights pool) i 0
        (omega (arith, length-map (λ (p : Weighted). p.weight) pool))

  not_before :
      (i j : ℕ)
      → i < length pool
      → j < length pool
      → (rest_at j < rest_at i) ⊎ (rest_at j ≡ rest_at i) × (i < j)
      → by_remainder (leftovers total (sum (weights pool)) (weights pool)) j i ≡ false
  not_before i j hi hj c = rw (rest_at_lem i hi, rest_at_lem j hj) (ground arith)

  -- A larger remainder, or an equal one at a lower index, is served first.
  bonus_first :
      (i j : ℕ)
      → i < length pool
      → j < length pool
      → (rest_at j < rest_at i) ⊎ (rest_at j ≡ rest_at i) × (i < j)
      → bonus total pool heavy j ≤ bonus total pool heavy i
  unfolding bonus
  bonus_first i j hi hj c = elim (dec_lt 0 (bonus total pool heavy j)) [
    | yes served ↦
        let first =
          occurs-take_before (by_remainder (leftovers total (sum (weights pool)) (weights pool))) i
            j (spare total pool heavy) (remainder_order total pool) (not_before i j hi hj c)
            order-IsSortedBy (omega (arith, occurs-order total pool heavy i hi)) served in
        omega (arith, first, bonus-le total pool heavy j hj)
    | no unserved ↦ omega arith
  ]

  bonus_none : (j : ℕ) → total ≡ 0 → bonus total pool heavy j ≡ 0
  unfolding bonus occurs
  bonus_none j e = let no_spare : spare total pool heavy ≡ 0 = omega arith in rw no_spare

  -- With no larger quota, the smaller entry has no larger bonus either.
  quota-bonus :
      (i j : ℕ)
      → i < length pool
      → j < length pool
      → (weight_at pool j < weight_at pool i) ⊎ (weight_at pool j ≡ weight_at pool i) × (i < j)
      → (quota total pool j < quota total pool i)
        ⊎ (quota total pool j ≡ quota total pool i)
          × (bonus total pool heavy j ≤ bonus total pool heavy i)
  unfolding rest_at
  quota-bonus i j hi hj (inr (same, lower)) =
      let products = ap (λ (w : ℕ). total * w) same in
      inr (
        ap (λ n. n / sum (weights pool)) products,
        bonus_first i j hi hj (inr (ap (λ n. n % sum (weights pool)) products, lower)),
      )
  quota-bonus i j hi hj (inl lighter) =
      elim (div_cases (total * weight_at pool i) (total * weight_at pool j) (sum (weights pool))
        heavy (mul-le-mul_left total (omega arith))) [
          | inl less ↦ inl less
          | inr (same, rest_le) ↦ elim (dec_lt (rest_at j) (rest_at i)) [
            | yes less ↦ inr (same, bonus_first i j hi hj (inl less))
            | no more ↦
                let nothing = total-eq-zero total (weight_at pool j) (weight_at pool i) lighter (
                  eq_of_div_mod (total * weight_at pool j) (total * weight_at pool i)
                    (sum (weights pool)) same (omega arith)) in
                inr (same, omega (arith, bonus_none j nothing))
          ]
        ]

  -- Where some weight is not 0, of two entries the one with the larger weight is not paid less, nor is
  -- the one that stands first at equal weights.
  pub largest_remainder-monotone :
      (i j : ℕ)
      → i < length pool
      → j < length pool
      → (weight_at pool j < weight_at pool i) ⊎ (weight_at pool j ≡ weight_at pool i) × (i < j)
      → get_or (largest_remainder total pool) j 0 ≤ get_or (largest_remainder total pool) i 0
  largest_remainder-monotone i j hi hj c = omega (
    arith,
    share-bonus total pool heavy i hi,
    share-bonus total pool heavy j hj,
    bonus-le total pool heavy j hj,
    quota-bonus i j hi hj c,
  )
