-- ===== src/Round/Asset/Served.antt =====
-- When `allocateAsset` pays an asset out: enough of it for the wallets to reach the minimum.
use Prim.Native.String.{String}
use native.Mathlib.Nat.{mul-suc, mul-le-mul_left}
use text.Mathlib.TextEquality.{eq_iff}
use stonkfolio.Prelude.{
  ℕ, zero, suc, ◌-◌, ◌*◌, ◌≤◌, ◌<◌, ◌≡◌, refl, sym, ◌∙◌, Bool, true, false, List, [], ◌∷◌, map,
  length, any, every, filter, take, leb, ltb, ◌==◌, ◌||◌, arith, Bool-cases, inl, inr, ok,
}
use stonkfolio.Prelude.Int.{pos}
use stonkfolio.Prelude.Sums.{sum}
use stonkfolio.Prelude.Maps.{has}
use stonkfolio.Prelude.Sort.{insert_by, sort_by, length-sort_by}
use stonkfolio.Prelude.Picked.{Picked-length, Picked-All}
use stonkfolio.Round.Types.{AssetInput, AssetShare, PayoutLeafRow, Keys}
use stonkfolio.Round.Remainder.{Weighted, largest_remainder}
use stonkfolio.Round.Remainder.Exact.{largest_remainder-exact}
use stonkfolio.Round.Asset.{
  Limits, shared, by_weight, set_of, truncate, keep_from, Passed, drop_passes, leaves_from,
  leaf_amounts, share_of, share_asset, finish_asset, allocate_asset,
}
use stonkfolio.Round.Asset.Passes.{
  IsHeavy, keep_from-Picked, length-largest_remainder, sum-weights-pos,
}
use stonkfolio.Round.Asset.Shares.{trimmed-heavy, share_asset-IsPass, pass-sum}
use stonkfolio.Round.Asset.Trim.{truncate-Picked}

module _ (minimum below : ℕ) (bound : minimum ≤ suc below) where
  -- Amounts that all stay below the minimum come to no more than that many times what is below it.
  keep_from-none :
      (pool : List Weighted) (amounts : List ℕ)
      → length amounts ≡ length pool
      → length (keep_from minimum pool amounts) ≡ 0
      → sum amounts ≤ below * length pool
  unfolding keep_from sum
  keep_from-none [] [] l h = omega arith
  keep_from-none [] (a ∷ amounts) l h = absurd (omega arith)
  keep_from-none (p ∷ pool) [] l h = absurd (omega arith)
  keep_from-none (p ∷ pool) (a ∷ amounts) l h = elim (Bool-cases (leb minimum a)) [
    | inl k ↦ absurd (let h' = rw k at h in omega (arith, h'))
    | inr k ↦
        let ih = keep_from-none pool amounts (omega arith) (rw k at h) in
        let step = mul-suc below (length pool) in
        let small : a ≤ below = ground arith in omega (arith, ih, step, small)
  ]

  -- A pool that can be served at the minimum: somebody is in it, and the amount goes beyond what is below
  -- the minimum for each.
  abbrev Serves : (allocatable : ℕ) → List Weighted → Type 0
  Serves allocatable pool = (0 < length pool) × (below * length pool < allocatable)

  keep_from-Serves :
      (allocatable : ℕ) (pool : List Weighted)
      → IsHeavy pool
      → Serves allocatable pool
      → Serves allocatable (keep_from minimum pool (largest_remainder allocatable pool))
  keep_from-Serves allocatable pool heavy (filled, enough) =
      let amounts = largest_remainder allocatable pool in
      let next = keep_from minimum pool amounts in
      let none = keep_from-none pool amounts (length-largest_remainder allocatable pool heavy) in
      let exact =
        (largest_remainder-exact allocatable pool (sum-weights-pos pool heavy filled)).0 in
      let shorter = Picked-length (keep_from-Picked minimum pool amounts) in
      let less = mul-le-mul_left below shorter in
      (grind (arith, none, exact, enough), omega (arith, less, enough))

  drop_passes-Serves :
      (allocatable passes : ℕ) (st : Passed)
      → IsHeavy st.pool
      → st.amounts ≡ largest_remainder allocatable st.pool
      → Serves allocatable st.pool
      → Serves allocatable (drop_passes passes allocatable minimum st).pool
  unfolding drop_passes
  drop_passes-Serves allocatable zero st heavy same s = s
  drop_passes-Serves allocatable (suc passes) st heavy same s =
      elim (Bool-cases (length st.pool == 0 || every (leb minimum) st.amounts)) [
        | inl stop ↦ rw stop s
        | inr more ↦ rw more (
            drop_passes-Serves allocatable passes _
              (Picked-All (λ (p : Weighted). 0 < p.weight)
                (keep_from-Picked minimum st.pool st.amounts) heavy)
              refl (rw same (keep_from-Serves allocatable st.pool heavy s)))
      ]

any-insert_by :
    {A : Type 0} (p : A → Bool) (before : A → A → Bool) (x : A) (xs : List A)
    → any p (insert_by before x xs) ≡ (p x || any p xs)
unfolding insert_by
any-insert_by p before x [] = refl
any-insert_by p before x (y ∷ ys) = ground (arith, any-insert_by p before x ys)

any-sort_by :
    {A : Type 0} (p : A → Bool) (before : A → A → Bool) (xs : List A)
    → any p (sort_by before xs) ≡ any p xs
unfolding sort_by
any-sort_by p before [] = refl
any-sort_by p before (x ∷ xs) =
    ground (arith, any-insert_by p before x (sort_by before xs), any-sort_by p before xs)

any-filter : {A : Type 0} (p : A → Bool) (xs : List A) → any p xs ≡ true → 0 < length (filter p xs)
any-filter p [] h = cc
any-filter p (x ∷ xs) h = elim (Bool-cases (p x)) [
  | inl e ↦ rw e (omega arith)
  | inr e ↦ rw e (any-filter p xs (rw e at h))
]

has-set_of : (o : String) (l : List String) → has o l ≡ true → has o (set_of l) ≡ true
unfolding has set_of
has-set_of o [] h = h
has-set_of o (n ∷ l) h = ground (arith, has-set_of o l, eq_iff n o)

-- The first of the ranking is kept.
any-kept :
    (max_leaves : ℕ) (ranked : List Weighted)
    → 0 < max_leaves
    → 0 < length ranked
    → any
        (λ p. has p.owner (set_of (map (λ (q : Weighted). q.owner) (take max_leaves ranked))))
        ranked
      ≡ true
unfolding has
any-kept zero ranked m l = absurd (omega arith)
any-kept (suc max_leaves) [] m l = absurd (omega arith)
any-kept (suc max_leaves) (p ∷ ranked) m l =
    let kept =
      has-set_of p.owner (p.owner ∷ map (λ (q : Weighted). q.owner) (take max_leaves ranked))
        (ground (arith, eq_iff p.owner p.owner)) in
    rw kept refl

truncate-filled :
    (keys : Keys) (max_leaves : ℕ) (pool : List Weighted)
    → 0 < max_leaves
    → 0 < length pool
    → 0 < length (truncate keys max_leaves pool).pool
unfolding truncate
truncate-filled keys max_leaves pool m l = elim (Bool-cases (ltb max_leaves (length pool))) [
  | inl e ↦
      let ranked = sort_by (by_weight keys) pool in
      rw e (
        any-filter _ pool (
          sym (any-sort_by _ (by_weight keys) pool)
          ∙ any-kept max_leaves ranked m (omega (arith, length-sort_by (by_weight keys) pool))))
  | inr e ↦ rw e l
]

sum-filled : (leaves : List PayoutLeafRow) → 0 < sum (leaf_amounts leaves) → 0 < length leaves
unfolding sum
sum-filled [] h = absurd (omega arith)
sum-filled (l ∷ leaves) h = omega arith

module _ (keys : Keys) (limits : Limits) (eligible : List Weighted) (heavy : IsHeavy eligible)
    (room : 0 < limits.max_leaves) (somebody : 0 < length eligible) where
  last_pass-filled :
      (allocatable minimum : ℕ)
      → (minimum - 1) * length eligible < allocatable
      → 0 < length (share_asset keys limits eligible allocatable minimum).pool
  unfolding share_asset
  last_pass-filled allocatable minimum enough =
      let cut = Picked-length (truncate-Picked keys limits.max_leaves eligible) in
      let less = mul-le-mul_left (minimum - 1) cut in
      (drop_passes-Serves minimum (minimum - 1) (omega arith) allocatable limits.passes _
        (trimmed-heavy keys limits eligible heavy) refl
        (
          truncate-filled keys limits.max_leaves eligible room somebody,
          omega (arith, less, enough),
        )).0

  -- Where somebody is eligible, all weights are above 0 and at least one leaf is allowed, an asset whose
  -- amount is more than one less than the minimum for each eligible wallet is shared out: `allocateAsset`
  -- neither skips nor refuses it.
  pub allocate_asset-served :
      (asset : AssetInput) (allocatable minimum : ℕ)
      → asset.allocatable ≡ pos allocatable
      → asset.min_leaf_amount ≡ pos minimum
      → (minimum - 1) * length eligible < allocatable
      → (share : AssetShare) × (allocate_asset keys limits eligible asset ≡ ok (shared share))
  unfolding allocate_asset finish_asset
  allocate_asset-served asset allocatable minimum ea em enough =
      let st = share_asset keys limits eligible allocatable minimum in
      let total =
        pass-sum keys limits eligible heavy allocatable st
          (share_asset-IsPass keys limits eligible heavy allocatable minimum)
          (last_pass-filled allocatable minimum enough) in
      let leaves = sum-filled (leaves_from 0 st.pool st.amounts) (omega (arith, total, enough)) in
      let some_leaf : (length (leaves_from 0 st.pool st.amounts) == 0) ≡ false = ground arith in
      let positive : (allocatable == 0) ≡ false = ground arith in
      (
        share_of asset allocatable (truncate keys limits.max_leaves eligible).truncated st,
        rw (ea, em, positive, some_leaf) refl,
      )
