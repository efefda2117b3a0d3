-- ===== src/Round/Allocate/Payout.antt =====
-- What `allocate` promises of a round: its holder table, and how each asset of the input is dealt with.
use Prim.Native.String.{String}
use mathlib.Core.List.{append_assoc, append-nil}
use stonkfolio.Prelude.{
  ℕ, suc, ◌≤◌, ◌≡◌, ◌∙◌, refl, sym, ap, length-append, subst, true, false, List, [], ◌∷◌, ◌++◌, map,
  length, All, ltb, ok, >>=-eq-ok, refuse-eq-ok, ok-inj, arith, Bool-cases, inl, inr,
}
use stonkfolio.Prelude.Picked.{Picked, done, skip, keep, Picked-All, Picked-Distinct, Distinct}
use stonkfolio.Prelude.Int.{pos_part}
use stonkfolio.Round.Types.{
  Rational, AssetInput, AllocationInput, AssetShare, HolderRow, AssetAllocation, SkippedAsset,
  AllocationResult, Keys,
}
use stonkfolio.Round.Holders.{compute_holders}
use stonkfolio.Round.Holders.Table.{IsHolder, IsTable, compute_holders-IsTable}
use stonkfolio.Round.Remainder.{Weighted}
use stonkfolio.Round.Asset.{Limits, Outcome, skipped, shared, allocate_asset}
use stonkfolio.Round.Asset.Passes.{IsHeavy}
use stonkfolio.Round.Asset.Leaves.{owners, recipients}
use stonkfolio.Round.Asset.Shares.{IsExactShare, allocate_asset-IsExactShare}
use stonkfolio.Round.Allocate.{
  max_assets_per_round, validate_params, has_repeat, eligible_pool, Shares, record_outcome,
  allocate_assets, allocate,
}

-- The assets of a list, each shared out exactly under the next index or skipped with a reason.
pub data Dealt (limits : Limits) (eligible : List Weighted)
    : ℕ → List AssetInput → List AssetAllocation → List SkippedAsset → Type 0 where
  finished : {next : ℕ} → Dealt limits eligible next [] [] []
  paid :
      {next : ℕ} {asset : AssetInput} {share : AssetShare}
      → {rest : List AssetInput} {allocations : List AssetAllocation} {skips : List SkippedAsset}
      → IsExactShare limits eligible asset share
      → Dealt limits eligible (suc next) rest allocations skips
      → Dealt limits eligible next
          (asset ∷ rest)
          (record { asset_idx = next; share = share } ∷ allocations)
          skips
  left :
      {next : ℕ} {asset : AssetInput} {reason : String}
      → {rest : List AssetInput} {allocations : List AssetAllocation} {skips : List SkippedAsset}
      → Dealt limits eligible next rest allocations skips
      → Dealt limits eligible next
          (asset ∷ rest)
          allocations
          (record { mint = asset.mint; reason = reason } ∷ skips)

module _ (keys : Keys) (limits : Limits) (eligible : List Weighted) (heavy : IsHeavy eligible)
    (distinct : Distinct (owners eligible)) where
  -- What the loop adds to what it has recorded.
  record Added (assets : List AssetInput) (before after : Shares) : Type 0 where
    allocations : List AssetAllocation
    skips : List SkippedAsset
    dealt : Dealt limits eligible (length before.assets) assets allocations skips
    all_allocations : after.assets ≡ before.assets ++ allocations
    all_skips : after.skipped_assets ≡ before.skipped_assets ++ skips

  add_outcome :
      (asset : AssetInput) (rest : List AssetInput) (outcome : Outcome) (st : Shares) {st' : Shares}
      → ((share : AssetShare) → outcome ≡ shared share → IsExactShare limits eligible asset share)
      → Added rest (record_outcome asset outcome st) st'
      → Added (asset ∷ rest) st st'
  add_outcome asset rest (skipped reason) st exact more = record {
    allocations = more.allocations;
    skips = record { mint = asset.mint; reason = reason } ∷ more.skips;
    dealt = left more.dealt;
    all_allocations = more.all_allocations;
    all_skips = more.all_skips ∙ append_assoc st.skipped_assets _ more.skips;
  }
  add_outcome asset rest (shared share) st exact more = record {
    allocations = record { asset_idx = length st.assets; share = share } ∷ more.allocations;
    skips = more.skips;
    dealt = paid (exact share refl) (
        subst (λ n. Dealt limits eligible n rest more.allocations more.skips)
          (length-append st.assets _ ∙ omega arith) more.dealt);
    all_allocations = more.all_allocations ∙ append_assoc st.assets _ more.allocations;
    all_skips = more.all_skips;
  }

  allocate_assets-Added :
      (assets : List AssetInput) (st : Shares) {st' : Shares}
      → allocate_assets keys limits eligible assets st ≡ ok st'
      → Added assets st st'
  unfolding allocate_assets
  allocate_assets-Added [] st {st'} h =
      let same : st' ≡ st = cc in
      record {
        allocations = [];
        skips = [];
        dealt = finished;
        all_allocations = rw same (sym (append-nil st.assets));
        all_skips = rw same (sym (append-nil st.skipped_assets));
      }
  allocate_assets-Added (asset ∷ rest) st h =
      let (outcome, one, more) = >>=-eq-ok (allocate_asset keys limits eligible asset) _ h in
      add_outcome asset rest outcome st
        (λ share same.
          allocate_asset-IsExactShare keys limits eligible heavy asset share distinct
            (one ∙ ap ok same))
        (allocate_assets-Added rest (record_outcome asset outcome st) more)

-- The pool holds the eligible wallets, each once and with what it held on average.
unfoldable pub Entitled : Keys → AllocationInput → Limits → Rational → String → Type 0
Entitled keys input limits price o =
    (h : HolderRow) × (h.owner ≡ o)
    × IsHolder keys input.snapshots input.exclusions price (pos_part input.sol_usd_micro)
        limits.min_eligible h
    × (h.eligible ≡ true)

module _ (keys : Keys) (input : AllocationInput) (limits : Limits) (price : Rational) where
  pool-Entitled :
      (holders : List HolderRow)
      → All
          (IsHolder keys input.snapshots input.exclusions price
            (pos_part input.sol_usd_micro)
            limits.min_eligible)
          holders
      → All (Entitled keys input limits price) (owners (eligible_pool holders))
  unfolding eligible_pool Entitled
  pool-Entitled [] h = tt
  pool-Entitled (r ∷ rest) h = elim (Bool-cases r.eligible) [
    | inl e ↦ rw e ((r, refl, h.0, e), pool-Entitled rest h.1)
    | inr n ↦ rw n (pool-Entitled rest h.1)
  ]

  pool-IsHeavy :
      (holders : List HolderRow)
      → All
          (IsHolder keys input.snapshots input.exclusions price
            (pos_part input.sol_usd_micro)
            limits.min_eligible)
          holders
      → IsHeavy (eligible_pool holders)
  unfolding eligible_pool
  pool-IsHeavy [] h = tt
  pool-IsHeavy (r ∷ rest) h = elim (Bool-cases r.eligible) [
    | inl e ↦ rw e ((h.0.bar.0 e).0, pool-IsHeavy rest h.1)
    | inr n ↦ rw n (pool-IsHeavy rest h.1)
  ]

pool-Picked :
    (holders : List HolderRow)
    → Picked (owners (eligible_pool holders)) (map (λ h. h.owner) holders)
unfolding eligible_pool
pool-Picked [] = done
pool-Picked (r ∷ rest) = elim (Bool-cases r.eligible) [
  | inl e ↦ rw e (keep (pool-Picked rest))
  | inr n ↦ rw n (skip (pool-Picked rest))
]

has_repeat-Distinct : (l : List String) → has_repeat l ≡ false → Distinct l
unfolding has_repeat Distinct
has_repeat-Distinct [] h = tt
has_repeat-Distinct (o ∷ l) h = (ground arith, has_repeat-Distinct l (ground arith))

pub record IsRound (keys : Keys) (input : AllocationInput) (result : AllocationResult)
    : Type 0 where
  pub limits : Limits
  pub valid : validate_params input.params ≡ ok limits
  pub table :
      IsTable keys input.snapshots input.exclusions
        (pos_part input.sol_usd_micro)
        limits.min_eligible
        (record {
          holders = result.holders;
          excluded = result.excluded;
          median_pool_price = result.median_pool_price;
        })
  -- Every asset of the input is dealt with, in order, and no mint comes twice.
  pub mints : Distinct (map (λ a. a.mint) input.assets)
  pub few : length input.assets ≤ max_assets_per_round
  pub dealt :
      Dealt limits (eligible_pool result.holders) 0 input.assets result.assets result.skipped
  -- Whoever is paid is a wallet that takes part and is worth the minimum.
  pub entitled :
      All
        (λ a. All (Entitled keys input limits result.median_pool_price) (recipients a.share.leaves))
        result.assets

dealt-All :
    {limits : Limits} {eligible : List Weighted} (P : String → Type 0)
    → All P (owners eligible)
    → {next : ℕ} {assets : List AssetInput} {allocations : List AssetAllocation}
      {skips : List SkippedAsset}
    → Dealt limits eligible next assets allocations skips
    → All (λ a. All P (recipients a.share.leaves)) allocations
dealt-All P all finished = tt
dealt-All P all (paid exact more) = (Picked-All P exact.eligible_only all, dealt-All P all more)
dealt-All P all (left more) = dealt-All P all more

-- Whatever `allocate` returns is a round: the holder table is true of the snapshots, every asset of the
-- input is, in order, paid out to the last unit under the next index or skipped, at most 30 assets come
-- and no mint twice, and whoever is paid takes part and held an average that is worth the minimum at the
-- median price of the pool and the price of SOL.
pub allocate-IsRound :
    (keys : Keys) (input : AllocationInput) {result : AllocationResult}
    → allocate keys input ≡ ok result
    → IsRound keys input result
unfolding allocate
allocate-IsRound keys input h =
    let (limits, valid, h1) = >>=-eq-ok (validate_params input.params) _ h in
    let (few, h2) = refuse-eq-ok (ltb max_assets_per_round (length input.assets)) _ _ h1 in
    let (once, h3) =
      refuse-eq-ok (has_repeat (map (λ (a : AssetInput). a.mint) input.assets)) _ _ h2 in
    let (table, computed, h4) =
      >>=-eq-ok
        (compute_holders keys input.snapshots input.exclusions input.sol_usd_micro
          limits.min_eligible)
        _ h3 in
    let holders =
      compute_holders-IsTable keys input.snapshots input.exclusions input.sol_usd_micro
        limits.min_eligible computed in
    let pool = eligible_pool table.holders in
    let (shares, looped, returned) =
      >>=-eq-ok
        (allocate_assets keys limits pool input.assets
          (record { assets = []; skipped_assets = [] }))
        _ h4 in
    let added =
      allocate_assets-Added keys limits pool (pool-IsHeavy keys input limits _ _ holders.rows)
        (Picked-Distinct (pool-Picked table.holders) holders.once) input.assets _ looped in
    subst (IsRound keys input) (ok-inj returned) (record {
      limits = limits;
      valid = valid;
      table = holders;
      mints = has_repeat-Distinct _ once;
      few = ground (arith, few);
      dealt = rw (added.all_allocations, added.all_skips) added.dealt;
      entitled = rw added.all_allocations (
          dealt-All (Entitled keys input limits table.median_pool_price)
            (pool-Entitled keys input limits _ _ holders.rows) added.dealt);
    })
