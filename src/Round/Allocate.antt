-- ===== src/Round/Allocate.antt =====
-- `validateParams` and `allocate` of keeper/round/allocate.ts.
pub mod Payout
pub mod Total
use Prim.Native.String.{String}
use stonkfolio.Prelude.{
  ℕ, zero, suc, Bool, true, false, ◌&&◌, ◌||◌, List, [], ◌∷◌, ◌++◌, map, length, filter, Option,
  some, none, Result, ok, err, ◌>>=◌, ◌>>◌, refuse, ltb, leb, if◌then◌else◌,
}
use stonkfolio.Prelude.Int.{ℤ, pos, negsuc, natural?, Number, whole, broken}
use stonkfolio.Prelude.Maps.{has}
use stonkfolio.Round.Types.{
  AssetInput, AllocationParams, AllocationInput, HolderRow, AssetAllocation, SkippedAsset,
  AllocationResult, Error, min_eligible_negative, max_leaves_out_of_range, passes_not_natural,
  too_many_assets, duplicate_mint, Keys,
}
use stonkfolio.Round.Holders.{compute_holders}
use stonkfolio.Round.Remainder.{Weighted}
use stonkfolio.Round.Asset.{Limits, Outcome, skipped, shared, allocate_asset}

abbrev pub max_assets_per_round : ℕ
max_assets_per_round = 30

abbrev pub max_leaves_limit : ℕ
max_leaves_limit = 65_536

abbrev min_eligible_of : ℤ → Result Error ℕ
min_eligible_of (pos n) = ok n
min_eligible_of (negsuc n) = err min_eligible_negative

abbrev max_leaves_of : Number → Result Error ℕ
max_leaves_of (whole (pos n)) =
    if ltb n 1 || ltb max_leaves_limit n then err max_leaves_out_of_range else ok n
max_leaves_of (whole (negsuc n)) = err max_leaves_out_of_range
max_leaves_of broken = err max_leaves_out_of_range

abbrev passes_of : Number → Result Error ℕ
passes_of (whole (pos n)) = ok n
passes_of (whole (negsuc n)) = err passes_not_natural
passes_of broken = err passes_not_natural

-- The parameters that it lets through, as the natural numbers that they are.
unfoldable pub validate_params : AllocationParams → Result Error Limits
validate_params params = do
  min_eligible ← min_eligible_of params.min_eligible_usd_micro
  max_leaves ← max_leaves_of params.max_leaves_per_asset
  passes ← passes_of params.max_min_leaf_passes
  ok (record { min_eligible = min_eligible; max_leaves = max_leaves; passes = passes })

unfoldable pub has_repeat : List String → Bool
unfolding has
has_repeat [] = false
has_repeat (m ∷ rest) = has m rest || has_repeat rest

unfoldable pub eligible_pool : List HolderRow → List Weighted
eligible_pool holders =
    map (λ h. record { owner = h.owner; weight = h.twab }) (filter (λ h. h.eligible) holders)

pub record Shares : Type 0 where
  pub assets : List AssetAllocation
  pub skipped_assets : List SkippedAsset

abbrev record_outcome : AssetInput → Outcome → Shares → Shares
record_outcome asset (skipped reason) st = record st {
  skipped_assets = st.skipped_assets ++ record { mint = asset.mint; reason = reason } ∷ [];
}
record_outcome asset (shared share) st = record st {
  assets = st.assets ++ record { asset_idx = length st.assets; share = share } ∷ [];
}

unfoldable pub allocate_assets :
    Keys → Limits → List Weighted → List AssetInput → Shares → Result Error Shares
unfolding allocate_asset
allocate_assets keys limits eligible [] st = ok st
allocate_assets keys limits eligible (asset ∷ rest) st = do
  outcome ← allocate_asset keys limits eligible asset
  allocate_assets keys limits eligible rest (record_outcome asset outcome st)

unfoldable pub allocate : Keys → AllocationInput → Result Error AllocationResult
unfolding validate_params has_repeat compute_holders eligible_pool allocate_assets
allocate keys input = do
  limits ← validate_params input.params
  refuse (ltb max_assets_per_round (length input.assets)) too_many_assets
  refuse (has_repeat (map (λ a. a.mint) input.assets)) duplicate_mint
  table ←
      compute_holders keys input.snapshots input.exclusions input.sol_usd_micro limits.min_eligible
  shares ←
      allocate_assets keys limits (eligible_pool table.holders) input.assets
        (record { assets = []; skipped_assets = [] })
  ok (record {
    median_pool_price = table.median_pool_price;
    holders = table.holders;
    excluded = table.excluded;
    assets = shares.assets;
    skipped = shares.skipped_assets;
  })
