-- ===== src/Round/Remainder/Exact.antt =====
-- What the largest-remainder split promises: the whole total, each share within one unit of its
-- quota, and no larger holder paid less than a smaller one.
use stonkfolio.Prelude.{
  ℕ, zero, suc, ◌+◌, ◌-◌, ◌*◌, ◌/◌, ◌%◌, ◌≤◌, ◌<◌, ◌≡◌, ◌∙◌, refl, ap, List, [], ◌∷◌, length,
  length-map, get_or, take, All, arith,
}
use stonkfolio.Prelude.Sort.{sort_by-All, length-sort_by}
use stonkfolio.Prelude.Sums.{sum, floors, leftovers, floors_bounds, positives-le-length}
use stonkfolio.Round.Remainder.{
  Weighted, weights, indices, hand_out, remainder_order, largest_remainder,
}
use stonkfolio.Round.Remainder.Order.{
  occurs, get_or-map, occurs-sort_by, occurs-indices, indices-lt, length-indices, length-hand_out,
  sum-hand_out, get_or-hand_out,
}

-- The weight of the pool's entry at an index, and its exact share, rounded down.
abbrev pub weight_at : List Weighted → ℕ → ℕ
weight_at pool i = get_or (weights pool) i 0

abbrev pub quota : (total : ℕ) → List Weighted → ℕ → ℕ
quota total pool i = total * weight_at pool i / sum (weights pool)

module _ (total : ℕ) (pool : List Weighted) (heavy : 0 < sum (weights pool)) where
  abbrev pub whole : ℕ
  whole = sum (weights pool)

  abbrev pub spare : ℕ
  spare = total - sum (floors total whole (weights pool))

  largest_remainder-hand_out :
      largest_remainder total pool
      ≡ hand_out (remainder_order total pool) spare (floors total whole (weights pool))
  unfolding largest_remainder
  largest_remainder-hand_out = ground arith

  pub length-floors : length (floors total whole (weights pool)) ≡ length pool
  length-floors = length-map _ (weights pool) ∙ length-map _ pool

  pub length-order : length (remainder_order total pool) ≡ length pool
  unfolding remainder_order
  length-order = length-sort_by _ (indices 0 pool) ∙ length-indices 0 pool

  order-lt : All (λ i. i < length (floors total whole (weights pool))) (remainder_order total pool)
  unfolding remainder_order
  order-lt = sort_by-All _ _ (indices 0 pool) (indices-lt 0 _ pool (omega (arith, length-floors)))

  spare-le : spare ≤ length pool
  spare-le =
      let (_, near) = floors_bounds total whole (weights pool) heavy refl in
      omega (
        arith,
        near,
        positives-le-length (leftovers total whole (weights pool)),
        length-map (λ w. total * w % whole) (weights pool),
        length-map (λ (p : Weighted). p.weight) pool,
      )

  -- Where some weight is not 0, the amounts are one for each entry and make up the whole total.
  pub largest_remainder-exact :
      (sum (largest_remainder total pool) ≡ total)
      × (length (largest_remainder total pool) ≡ length pool)
  largest_remainder-exact =
      let (fits, _) = floors_bounds total whole (weights pool) heavy refl in
      rw largest_remainder-hand_out (
        omega (
          arith,
          fits,
          sum-hand_out (remainder_order total pool) spare _ order-lt
              (omega (arith, spare-le, length-order)),
        ),
        length-hand_out _ _ _ ∙ length-floors,
      )

  unfoldable pub bonus : ℕ → ℕ
  bonus i = occurs i (take spare (remainder_order total pool))

  occurs-take-le : (i k : ℕ) (xs : List ℕ) → occurs i (take k xs) ≤ occurs i xs
  unfolding occurs
  occurs-take-le i zero xs = omega arith
  occurs-take-le i (suc k) [] = omega arith
  occurs-take-le i (suc k) (x ∷ xs) = ground (arith, occurs-take-le i k xs)

  pub occurs-order : (i : ℕ) → i < length pool → occurs i (remainder_order total pool) ≡ 1
  unfolding remainder_order
  occurs-order i h =
      occurs-sort_by _ i (indices 0 pool) ∙ occurs-indices i 0 pool (omega arith) (omega arith)

  pub share-bonus :
      (i : ℕ)
      → i < length pool
      → get_or (largest_remainder total pool) i 0 ≡ quota total pool i + bonus i
  unfolding bonus
  share-bonus i h =
      let split =
        get_or-hand_out (remainder_order total pool) spare (floors total whole (weights pool)) i
          (omega (arith, length-floors)) in
      let start =
        get_or-map (λ w. total * w / whole) (weights pool) i 0
          (omega (arith, length-map (λ (p : Weighted). p.weight) pool)) in
      rw largest_remainder-hand_out (split ∙ ap (λ n. n + bonus i) start)

  pub bonus-le : (i : ℕ) → i < length pool → bonus i ≤ 1
  unfolding bonus
  bonus-le i h =
      omega (arith, occurs-take-le i spare (remainder_order total pool), occurs-order i h)

  -- Where some weight is not 0, every share is its exact quota, rounded down or one unit more.
  pub largest_remainder-quota :
      (i : ℕ)
      → i < length pool
      → (quota total pool i ≤ get_or (largest_remainder total pool) i 0)
        × (get_or (largest_remainder total pool) i 0 ≤ quota total pool i + 1)
  largest_remainder-quota i h = omega (arith, share-bonus i h, bonus-le i h)
