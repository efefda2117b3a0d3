-- ===== src/Round/Allocate/Total.antt =====
-- When `allocate` returns: what it asks of its input is enough.
use stonkfolio.Prelude.{
  ◌<◌, ◌≤◌, ◌≡◌, refl, false, List, [], ◌∷◌, map, length, All, ok, ltb, ◌==◌, if◌then◌else◌, arith,
}
use stonkfolio.Prelude.Int.{pos, pos_part}
use stonkfolio.Round.Types.{AssetInput, AllocationInput, AllocationResult, Keys}
use stonkfolio.Round.Holders.{has_repeated_index}
use stonkfolio.Round.Holders.Total.{IsReadable, compute_holders-returns}
use stonkfolio.Round.Remainder.{Weighted}
use stonkfolio.Round.Asset.{
  Limits, Outcome, skipped, truncate, share_asset, finish_asset, allocate_asset,
}
use stonkfolio.Round.Allocate.{
  max_assets_per_round, validate_params, has_repeat, eligible_pool, Shares, record_outcome,
  allocate_assets, allocate,
}

-- An input that `allocate` accepts, with the limits that its parameters give.
pub record IsInput (keys : Keys) (input : AllocationInput) (limits : Limits) : Type 0 where
  pub params : validate_params input.params ≡ ok limits
  pub few : length input.assets ≤ max_assets_per_round
  pub mints : has_repeat (map (λ a. a.mint) input.assets) ≡ false
  pub sampled : 0 < length input.snapshots
  pub sol : input.sol_usd_micro ≡ pos (pos_part input.sol_usd_micro)
  pub sol_positive : 0 < pos_part input.sol_usd_micro
  pub indices : has_repeated_index input.snapshots ≡ false
  pub snapshots : All (IsReadable keys) input.snapshots
  pub amounts :
      All
        (λ a.
          (a.allocatable ≡ pos (pos_part a.allocatable))
          × (a.min_leaf_amount ≡ pos (pos_part a.min_leaf_amount)))
        input.assets

module _ (keys : Keys) (limits : Limits) (eligible : List Weighted) where
  allocate_asset-ok :
      (asset : AssetInput)
      → asset.allocatable ≡ pos (pos_part asset.allocatable)
      → asset.min_leaf_amount ≡ pos (pos_part asset.min_leaf_amount)
      → (outcome : Outcome) × (allocate_asset keys limits eligible asset ≡ ok outcome)
  unfolding allocate_asset
  allocate_asset-ok asset a m = (
    if pos_part asset.allocatable == 0
        then skipped "nothing to allocate"
        else finish_asset asset (pos_part asset.allocatable)
            (truncate keys limits.max_leaves eligible).truncated
            (share_asset keys limits eligible (pos_part asset.allocatable)
              (pos_part asset.min_leaf_amount)),
    rw (a, m) refl,
  )

  allocate_assets-ok :
      (assets : List AssetInput) (st : Shares)
      → All
          (λ a.
            (a.allocatable ≡ pos (pos_part a.allocatable))
            × (a.min_leaf_amount ≡ pos (pos_part a.min_leaf_amount)))
          assets
      → (st' : Shares) × (allocate_assets keys limits eligible assets st ≡ ok st')
  unfolding allocate_assets
  allocate_assets-ok [] st h = (st, refl)
  allocate_assets-ok (asset ∷ rest) st h =
      let (outcome, one) = allocate_asset-ok asset h.0.0 h.0.1 in
      let (end, more) = allocate_assets-ok rest (record_outcome asset outcome st) h.1 in
      (end, rw one more)

-- `allocate` returns a result whenever its parameters validate, there are at most 30 assets of different
-- mints with amounts that are not negative, there is a snapshot, the price of SOL is above 0, no snapshot
-- index comes twice, and each snapshot has owners that are keys, no negative balance, no account twice and a sound price.
pub allocate-returns :
    (keys : Keys) (input : AllocationInput) (limits : Limits)
    → IsInput keys input limits
    → (result : AllocationResult) × (allocate keys input ≡ ok result)
unfolding allocate
allocate-returns keys input limits h =
    let (table, computed) =
      compute_holders-returns keys input.snapshots input.exclusions (pos_part input.sol_usd_micro)
        limits.min_eligible h.sampled h.sol_positive h.indices h.snapshots in
    let (shares, shared_out) =
      allocate_assets-ok keys limits (eligible_pool table.holders) input.assets
        (record { assets = []; skipped_assets = [] }) h.amounts in
    let few : ltb max_assets_per_round (length input.assets) ≡ false = ground (arith, h.few) in
    let valid = h.params in
    let mints = h.mints in
    let sol = h.sol in
    (
      record {
        median_pool_price = table.median_pool_price;
        holders = table.holders;
        excluded = table.excluded;
        assets = shares.assets;
        skipped = shares.skipped_assets;
      },
      rw (valid, few, mints, sol, computed, shared_out) refl,
    )
