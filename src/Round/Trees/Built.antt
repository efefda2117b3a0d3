-- ===== src/Round/Trees/Built.antt =====
-- The trees of what `allocate` returns are always built.
use Prim.Native.String.{String}
use mathlib.Core.List.{head-eq_of_cons-eq, tail-eq_of_cons-eq}
use stonkfolio.Prelude.{
  ℕ, suc, ◌+◌, ◌^◌, ◌<◌, ◌≤◌, ◌≡◌, refl, true, false, not, List, [], ◌∷◌, map, length, All, All-map,
  ◌==◌, replicate, none, some, ok, arith,
}
use stonkfolio.Prelude.Sums.{sum}
use stonkfolio.Round.Types.{
  AssetInput, AssetAllocation, AssetShare, SkippedAsset, PayoutLeafRow, AllocationParams, Rational,
  AllocationInput, AllocationResult, Keys,
}
use stonkfolio.Merkle.{Bytes, PayoutLeaf, root}
use stonkfolio.Merkle.Climb.{proof-verifies}
use stonkfolio.Round.Remainder.{Weighted, indices}
use stonkfolio.Round.Asset.{Limits, leaf_amounts}
use stonkfolio.Round.Asset.Leaves.{recipients}
use stonkfolio.Round.Asset.Shares.{IsExactShare}
use stonkfolio.Round.Allocate.{validate_params, max_leaves_limit, max_assets_per_round, allocate}
use stonkfolio.Round.Allocate.Payout.{Dealt, finished, paid, left, Entitled, allocate-IsRound}
use stonkfolio.Round.Trees.{
  RoundAssetTree, RoundTrees, leaf_hashes, asset_tree, asset_trees, asset_hashes, build_round_trees,
}
use stonkfolio.Round.Trees.Encoded.{payout_leaf_bytes-ok, asset_leaf_bytes-ok}

module _ (program_id distributor : Bytes) (round_id : ℕ) (round : round_id < 256 ^ 8) where
  module _ (keys : Keys) (digest : Bytes → Bytes) where
    abbrev IsKey : String → Type 0
    IsKey o = keys.is_key o ≡ true

    -- The mint and the token program of an allocation are keys.
    abbrev KeyedAsset : AssetAllocation → Type 0
    KeyedAsset a = (keys.is_key a.share.mint ≡ true) × (keys.is_key a.share.token_program ≡ true)

    leaf_hashes-ok :
        (asset_idx position : ℕ) (leaves : List PayoutLeafRow)
        → asset_idx < 256 ^ 1
        → position + length leaves ≤ max_leaves_limit
        → sum (leaf_amounts leaves) < 256 ^ 8
        → map (λ l. l.leaf_idx) leaves ≡ indices position leaves
        → All IsKey (recipients leaves)
        → (hashes : List Bytes) × (leaf_hashes keys digest program_id distributor round_id asset_idx
              position leaves
            ≡ ok hashes)
          × (length hashes ≡ length leaves)
    unfolding leaf_hashes indices sum
    leaf_hashes-ok asset_idx position [] a l s n k = ([], refl, refl)
    leaf_hashes-ok asset_idx position (leaf ∷ rest) a l s n k =
        let at_position : leaf.leaf_idx ≡ position = head-eq_of_cons-eq n in
        let no_gap : not (leaf.leaf_idx == position) ≡ false = ground arith in
        let row : PayoutLeaf = record {
          leaf_idx = position;
          recipient = keys.buffer leaf.recipient;
          amount = leaf.amount;
        } in
        let (bs, encoded) =
          payout_leaf_bytes-ok program_id distributor round_id round asset_idx row a (omega arith)
            (omega (arith, s)) in
        let (hashes, more, sized) =
          leaf_hashes-ok asset_idx (suc position) rest a (omega arith) (omega (arith, s))
            (tail-eq_of_cons-eq n) k.1 in
        (digest bs ∷ hashes, rw (no_gap, k.0, encoded, more) refl, omega (arith, sized))

    -- What an asset's tree needs to be hashed.
    Fits : RoundAssetTree → Type 0
    Fits t =
        (t.tuple.asset_idx < 256 ^ 1)
        × (t.tuple.leaf_count < 256 ^ 4)
        × (t.tuple.allocated < 256 ^ 8)

    asset_tree-ok :
        (limits : Limits) (eligible : List Weighted) (asset : AssetInput) (share : AssetShare)
        (position : ℕ)
        → IsExactShare limits eligible asset share
        → limits.max_leaves ≤ max_leaves_limit
        → position < 256 ^ 1
        → share.allocatable < 256 ^ 8
        → keys.is_key share.mint ≡ true
        → keys.is_key share.token_program ≡ true
        → All IsKey (recipients share.leaves)
        → (t : RoundAssetTree) × (asset_tree keys digest program_id distributor round_id position
              (record { asset_idx = position; share = share })
            ≡ ok t)
          × Fits t
    unfolding asset_tree Fits
    asset_tree-ok limits eligible asset share position exact room a m mint program k =
        let in_place : not (position == position) ≡ false = ground arith in
        let (hashes, hashed, sized) =
          leaf_hashes-ok position 0 share.leaves a (omega (arith, exact.few))
            (omega (arith, exact.paid)) exact.numbered k in
        let (tree, grown, _, _) =
          proof-verifies digest hashes (omega (arith, sized, exact.filled)) in
        (
          record {
            tuple = record {
              asset_idx = position;
              mint = keys.buffer share.mint;
              token_program = keys.buffer share.token_program;
              merkle_root = root tree;
              allocated = share.allocated;
              leaf_count = length share.leaves;
            };
            tree = tree;
          },
          rw (in_place, hashed, grown, mint, program) refl,
          (a, omega (arith, exact.few), omega (arith, exact.reported)),
        )

    asset_trees-ok :
        (limits : Limits) (eligible : List Weighted) {next : ℕ} {assets : List AssetInput}
        {allocations : List AssetAllocation} {skips : List SkippedAsset}
        → Dealt limits eligible next assets allocations skips
        → limits.max_leaves ≤ max_leaves_limit
        → next + length assets ≤ max_assets_per_round
        → All (λ a. a.share.allocatable < 256 ^ 8) allocations
        → All KeyedAsset allocations
        → All (λ a. All IsKey (recipients a.share.leaves)) allocations
        → (trees : List RoundAssetTree) × (asset_trees keys digest program_id distributor round_id
              next allocations
            ≡ ok trees)
          × (length trees ≡ length allocations)
          × All Fits trees
    unfolding asset_trees
    asset_trees-ok limits eligible finished room few small named keyed = ([], refl, refl, tt)
    asset_trees-ok limits eligible {next} (paid {asset = asset} {share = share} exact more) room few
          small named keyed =
        let (t, one, fits) =
          asset_tree-ok limits eligible asset share next exact room (omega (arith, few)) small.0
            named.0.0 named.0.1 keyed.0 in
        let (trees, rest, sized, all) =
          asset_trees-ok limits eligible more room (omega (arith, few)) small.1 named.1 keyed.1 in
        (t ∷ trees, rw (one, rest) refl, omega (arith, sized), (fits, all))
    asset_trees-ok limits eligible (left more) room few small named keyed =
        asset_trees-ok limits eligible more room (omega (arith, few)) small named keyed

    asset_hashes-ok :
        (trees : List RoundAssetTree)
        → All Fits trees
        → (hashes : List Bytes) × (asset_hashes keys digest program_id distributor round_id trees
            ≡ ok hashes)
          × (length hashes ≡ length trees)
    unfolding asset_hashes Fits
    asset_hashes-ok [] all = ([], refl, refl)
    asset_hashes-ok (t ∷ trees) all =
        let (bs, encoded) =
          asset_leaf_bytes-ok program_id distributor round_id round t.tuple all.0.0 all.0.1
            all.0.2 in
        let (hashes, rest, sized) = asset_hashes-ok trees all.1 in
        (digest bs ∷ hashes, rw (encoded, rest) refl, omega (arith, sized))

    build_round_trees-ok :
        (allocations : List AssetAllocation) {trees : List RoundAssetTree}
        → asset_trees keys digest program_id distributor round_id 0 allocations ≡ ok trees
        → length trees ≡ length allocations
        → All Fits trees
        → (built : RoundTrees) × (build_round_trees keys digest program_id distributor round_id
              allocations
            ≡ ok built)
          × (length built.assets ≡ length allocations)
    unfolding build_round_trees
    build_round_trees-ok [] h sized all =
        (record { assets_root = replicate 32 0; assets_tree = none; assets = [] }, refl, refl)
    build_round_trees-ok (a ∷ rest) {trees} h sized all =
        let (hashes, hashed, many) = asset_hashes-ok trees all in
        let (tree, grown, _, _) = proof-verifies digest hashes (omega (arith, many, sized)) in
        (
          record { assets_root = root tree; assets_tree = some tree; assets = trees },
          rw (h, hashed, grown) refl,
          sized,
        )

Entitled-IsKey :
    (keys : Keys) (input : AllocationInput) (limits : Limits) (price : Rational) (o : String)
    → Entitled keys input limits price o
    → keys.is_key o ≡ true
unfolding Entitled
Entitled-IsKey keys input limits price o e = rw e.1 at e.2.admitted.2

validate_params-room :
    (params : AllocationParams) {limits : Limits}
    → validate_params params ≡ ok limits
    → limits.max_leaves ≤ max_leaves_limit
unfolding validate_params
validate_params-room params h = ground arith

-- For a round id and allocatable amounts below 2^64, and mints and token programs that are keys,
-- `buildRoundTrees` never throws on the assets that `allocate` returns, whose recipients are keys: it
-- builds a tree for each of them.
pub allocate-build_round_trees :
    (keys : Keys) (input : AllocationInput) (digest : Bytes → Bytes)
    (program_id distributor : Bytes) (round_id : ℕ) {result : AllocationResult}
    → allocate keys input ≡ ok result
    → round_id < 256 ^ 8
    → All (λ a. a.share.allocatable < 256 ^ 8) result.assets
    → All
        (λ a. (keys.is_key a.share.mint ≡ true) × (keys.is_key a.share.token_program ≡ true))
        result.assets
    → (trees : RoundTrees) × (build_round_trees keys digest program_id distributor round_id
          result.assets
        ≡ ok trees)
      × (length trees.assets ≡ length result.assets)
allocate-build_round_trees keys input digest program_id distributor round_id {result} h round small
      named =
    let r = allocate-IsRound keys input h in
    let (trees, made, sized, all) =
      asset_trees-ok program_id distributor round_id round keys digest r.limits _ r.dealt
        (validate_params-room input.params r.valid) (omega (arith, r.few)) small named
        (All-map
          (λ a paid. All-map (Entitled-IsKey keys input r.limits result.median_pool_price) _ paid) _
          r.entitled) in
    build_round_trees-ok program_id distributor round_id round keys digest _ made sized all
