-- ===== src/Round/Asset/Shares.antt =====
-- What `allocateAsset` promises of an asset that it shares out, and when it skips one.
use stonkfolio.Prelude.{
  ℕ, suc, ◌≤◌, ◌<◌, ◌≡◌, ◌⊎◌, ◌∙◌, refl, sym, ap, subst, true, List, [], ◌∷◌, map, length, All,
  every, leb, ◌==◌, arith, Bool-cases, inl, inr, ok, >>=-eq-ok,
}
use stonkfolio.Prelude.Int.{pos, pos_part}
use stonkfolio.Prelude.Sums.{sum}
use stonkfolio.Prelude.Picked.{
  Picked, Picked-refl, Picked-trans, Picked-length, Picked-All, Picked-map, Picked-Distinct,
  Distinct,
}
use stonkfolio.Round.Types.{AssetInput, AssetShare, PayoutLeafRow, Keys}
use stonkfolio.Round.Remainder.{Weighted, indices, largest_remainder}
use stonkfolio.Round.Remainder.Exact.{largest_remainder-exact}
use stonkfolio.Round.Asset.{
  Limits, shared, truncate, Passed, leaves_from, leaf_amounts, finish_asset, share_of, share_asset,
  amounts_of, allocate_asset,
}
use stonkfolio.Round.Asset.Passes.{
  IsHeavy, IsPass, drop_passes-IsPass, drop_passes-minimum, length-largest_remainder,
  sum-weights-pos,
}
use stonkfolio.Round.Asset.Leaves.{
  owners, recipients, sum-leaves_from, leaves_from-numbered, leaves_from-positive,
  leaves_from-above, leaves_from-Picked,
}
use stonkfolio.Round.Asset.Trim.{truncate-Picked, length-truncate}

pub record IsExactShare (limits : Limits) (eligible : List Weighted) (asset : AssetInput)
    (share : AssetShare) : Type 0 where
  -- The whole amount is paid out, to the last unit.
  pub input : asset.allocatable ≡ pos share.allocatable
  pub paid : sum (leaf_amounts share.leaves) ≡ share.allocatable
  pub reported : share.allocated ≡ share.allocatable
  pub no_dust : share.dust ≡ 0
  pub filled : 0 < length share.leaves
  -- Every leaf pays something, the leaves are numbered from 0, and are no more than allowed.
  pub positive : All (λ l. 0 < l.amount) share.leaves
  pub numbered : map (λ l. l.leaf_idx) share.leaves ≡ indices 0 share.leaves
  pub few : length share.leaves ≤ limits.max_leaves
  -- Only eligible wallets are paid, and none of them twice.
  pub eligible_only : Picked (recipients share.leaves) (owners eligible)
  pub once : Distinct (recipients share.leaves)
  -- Nobody is paid less than the minimum, unless every allowed pass has dropped somebody.
  pub minimum :
      All (λ l. pos_part asset.min_leaf_amount ≤ l.amount) share.leaves
      ⊎ (limits.passes ≤ share.dropped_below_min)

pub amounts_of-eq-ok :
    (asset : AssetInput) {a m : ℕ}
    → amounts_of asset ≡ ok (a, m)
    → (asset.allocatable ≡ pos a) × (asset.min_leaf_amount ≡ pos m)
amounts_of-eq-ok asset h = ground arith

module _ (keys : Keys) (limits : Limits) (eligible : List Weighted) (heavy : IsHeavy eligible) where
  abbrev pub trimmed : List Weighted
  trimmed = (truncate keys limits.max_leaves eligible).pool

  pub trimmed-heavy : IsHeavy trimmed
  trimmed-heavy =
      Picked-All (λ (p : Weighted). 0 < p.weight) (truncate-Picked keys limits.max_leaves eligible)
        heavy

  first-IsPass :
      (allocatable : ℕ)
      → IsPass trimmed allocatable
          (record { pool = trimmed; amounts = largest_remainder allocatable trimmed; dropped = 0 })
  first-IsPass allocatable = record {
    shared_out = refl;
    picked = Picked-refl trimmed;
    counted = omega arith;
  }

  pub share_asset-IsPass :
      (allocatable minimum : ℕ)
      → IsPass trimmed allocatable (share_asset keys limits eligible allocatable minimum)
  unfolding share_asset
  share_asset-IsPass allocatable minimum =
      drop_passes-IsPass trimmed allocatable minimum limits.passes _ (first-IsPass allocatable)

  share_asset-minimum :
      (allocatable minimum : ℕ)
      → (every (leb minimum) (share_asset keys limits eligible allocatable minimum).amounts ≡ true)
        ⊎ (limits.passes ≤ (share_asset keys limits eligible allocatable minimum).dropped)
  unfolding share_asset
  share_asset-minimum allocatable minimum =
      elim (drop_passes-minimum trimmed allocatable minimum limits.passes _ trimmed-heavy
        (first-IsPass allocatable)) [
          | inl above ↦ inl above
          | inr spent ↦ inr (omega (arith, spent))
        ]

  -- The leaves of the last pass pay out everything, if any wallet is left.
  module _ (allocatable : ℕ) (st : Passed) (pass : IsPass trimmed allocatable st) where
    pass-heavy : IsHeavy st.pool
    pass-heavy = Picked-All (λ (p : Weighted). 0 < p.weight) pass.picked trimmed-heavy

    pass-length : length st.amounts ≡ length st.pool
    pass-length = rw pass.shared_out (length-largest_remainder allocatable st.pool pass-heavy)

    pub pass-sum :
        0 < length st.pool → sum (leaf_amounts (leaves_from 0 st.pool st.amounts)) ≡ allocatable
    pass-sum filled =
        sum-leaves_from 0 st.pool st.amounts pass-length
        ∙ rw pass.shared_out
            (largest_remainder-exact allocatable st.pool
              (sum-weights-pos st.pool pass-heavy filled)).0

    length-recipients : (leaves : List PayoutLeafRow) → length (recipients leaves) ≡ length leaves
    length-recipients [] = refl
    length-recipients (l ∷ leaves) = ap suc (length-recipients leaves)

    length-owners : (pool : List Weighted) → length (owners pool) ≡ length pool
    length-owners [] = refl
    length-owners (p ∷ pool) = ap suc (length-owners pool)

    pass-length-leaves : length (leaves_from 0 st.pool st.amounts) ≤ length st.pool
    pass-length-leaves = omega (
      arith,
      Picked-length (leaves_from-Picked 0 st.pool st.amounts),
      length-recipients (leaves_from 0 st.pool st.amounts),
      length-owners st.pool,
    )

    finish-cases :
        (asset : AssetInput) (truncated : ℕ) {share : AssetShare}
        → finish_asset asset allocatable truncated st ≡ shared share
        → (0 < length (leaves_from 0 st.pool st.amounts))
          × (share ≡ share_of asset allocatable truncated st)
    unfolding finish_asset
    finish-cases asset truncated h =
        elim (Bool-cases (length (leaves_from 0 st.pool st.amounts) == 0)) [
          | inl e ↦ absurd (let h' = rw e at h in cc)
          | inr e ↦ let h' = rw e at h in (ground arith, cc)
        ]

    share_of-IsExactShare :
        (asset : AssetInput) (truncated minimum : ℕ)
        → 0 < length (leaves_from 0 st.pool st.amounts)
        → Distinct (owners eligible)
        → asset.allocatable ≡ pos allocatable
        → asset.min_leaf_amount ≡ pos minimum
        → (every (leb minimum) st.amounts ≡ true) ⊎ (limits.passes ≤ st.dropped)
        → IsExactShare limits eligible asset (share_of asset allocatable truncated st)
    unfolding share_of
    share_of-IsExactShare asset truncated minimum some_leaf d ea em above =
        let paid = pass-sum (omega (arith, some_leaf, pass-length-leaves)) in
        let cut = truncate-Picked keys limits.max_leaves eligible in
        let picked = Picked-trans cut pass.picked in
        let eligible_only =
          Picked-trans (Picked-map (λ (p : Weighted). p.owner) picked)
            (leaves_from-Picked 0 st.pool st.amounts) in
        record {
          input = ea;
          paid = paid;
          reported = paid;
          no_dust = omega (arith, paid);
          filled = some_leaf;
          positive = leaves_from-positive 0 st.pool st.amounts;
          numbered = leaves_from-numbered 0 st.pool st.amounts;
          few = omega (
            arith,
            pass-length-leaves,
            Picked-length pass.picked,
            length-truncate keys limits.max_leaves eligible d,
          );
          eligible_only = eligible_only;
          once = Picked-Distinct eligible_only d;
          minimum = elim above [
            | inl fine ↦ inl (rw em (leaves_from-above minimum 0 st.pool st.amounts fine))
            | inr spent ↦ inr spent
          ];
        }

    finish_asset-IsExactShare :
        (asset : AssetInput) (truncated minimum : ℕ) {share : AssetShare}
        → Distinct (owners eligible)
        → asset.allocatable ≡ pos allocatable
        → asset.min_leaf_amount ≡ pos minimum
        → (every (leb minimum) st.amounts ≡ true) ⊎ (limits.passes ≤ st.dropped)
        → finish_asset asset allocatable truncated st ≡ shared share
        → IsExactShare limits eligible asset share
    finish_asset-IsExactShare asset truncated minimum d ea em above h =
        let (some_leaf, same) = finish-cases asset truncated h in
        subst (IsExactShare limits eligible asset) (sym same)
          (share_of-IsExactShare asset truncated minimum some_leaf d ea em above)

  -- An asset that `allocateAsset` shares out among eligible wallets of positive weight, no two alike, is
  -- paid out to the last unit in numbered leaves above 0, no more than allowed, to eligible wallets, none
  -- twice, and none below the minimum unless as many wallets were dropped as there may be passes.
  pub allocate_asset-IsExactShare :
      (asset : AssetInput) (share : AssetShare)
      → Distinct (owners eligible)
      → allocate_asset keys limits eligible asset ≡ ok (shared share)
      → IsExactShare limits eligible asset share
  unfolding allocate_asset
  allocate_asset-IsExactShare asset share d h =
      let ((allocatable, minimum), read, rest) = >>=-eq-ok (amounts_of asset) _ h in
      let (ea, em) = amounts_of-eq-ok asset read in
      elim (Bool-cases (allocatable == 0)) [
        | inl nothing ↦ absurd (let rest' = rw nothing at rest in cc)
        | inr something ↦
            finish_asset-IsExactShare allocatable
              (share_asset keys limits eligible allocatable minimum)
              (share_asset-IsPass allocatable minimum) asset
              (truncate keys limits.max_leaves eligible).truncated minimum d ea em
              (share_asset-minimum allocatable minimum) (let rest' = rw something at rest in cc)
      ]
