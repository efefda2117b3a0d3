-- ===== src/Round/Trees.antt =====
-- keeper/round/trees.ts: the payout tree of each asset and the tree of the round's assets.
pub mod Encoded
pub mod Built
use Prim.Native.String.{String}
use stonkfolio.Prelude.{
  ℕ, zero, suc, Bool, true, false, not, List, [], ◌∷◌, map, length, replicate, Option, none, some,
  Result, ok, err, ◌>>=◌, ◌>>◌, refuse, ◌==◌, if◌then◌else◌,
}
use stonkfolio.Round.Types.{AssetAllocation, PayoutLeafRow, Keys}
use stonkfolio.Merkle.{
  Bytes, AssetTuple, PayoutLeaf, MerkleTree, payout_leaf_bytes, asset_leaf_bytes, merkle_tree, root,
}

pub data Error : Type 0 where
  wrong_index : (mint : String) (found expected : ℕ) → Error
  leaf_gap : (asset_idx : ℕ) → Error
  invalid_key : Error
  merkle : stonkfolio.Merkle.Error → Error

pub record RoundAssetTree : Type 0 where
  pub tuple : AssetTuple
  pub tree : MerkleTree

pub record RoundTrees : Type 0 where
  pub assets_root : Bytes
  pub assets_tree : Option MerkleTree
  pub assets : List RoundAssetTree

-- A throw of lib/merkle.ts passes through.
abbrev pub lift : {A : Type 0} → Result stonkfolio.Merkle.Error A → Result Error A
lift (ok a) = ok a
lift (err e) = err (merkle e)

module _ (keys : Keys) (digest : Bytes → Bytes) (program_id distributor : Bytes)
    (round_id : ℕ) where
  -- The hashes of an asset's leaves, from the given position on.
  unfoldable pub leaf_hashes :
      (asset_idx position : ℕ) → List PayoutLeafRow → Result Error (List Bytes)
  leaf_hashes asset_idx position [] = ok []
  leaf_hashes asset_idx position (leaf ∷ rest) = do
    refuse (not (leaf.leaf_idx == position)) (leaf_gap asset_idx)
    refuse (not (keys.is_key leaf.recipient)) invalid_key
    bytes ← lift (
        payout_leaf_bytes program_id distributor round_id asset_idx (record {
          leaf_idx = position;
          recipient = keys.buffer leaf.recipient;
          amount = leaf.amount;
        }))
    hashes ← leaf_hashes asset_idx (suc position) rest
    ok (digest bytes ∷ hashes)

  unfoldable pub asset_tree : (position : ℕ) → AssetAllocation → Result Error RoundAssetTree
  unfolding leaf_hashes
  asset_tree position allocation = do
    refuse (not (allocation.asset_idx == position))
        (wrong_index allocation.share.mint allocation.asset_idx position)
    hashes ← leaf_hashes position 0 allocation.share.leaves
    tree ← lift (merkle_tree digest hashes)
    refuse (not (keys.is_key allocation.share.mint)) invalid_key
    refuse (not (keys.is_key allocation.share.token_program)) invalid_key
    ok (record {
      tuple = record {
        asset_idx = position;
        mint = keys.buffer allocation.share.mint;
        token_program = keys.buffer allocation.share.token_program;
        merkle_root = root tree;
        allocated = allocation.share.allocated;
        leaf_count = length allocation.share.leaves;
      };
      tree = tree;
    })

  unfoldable pub asset_trees :
      (position : ℕ) → List AssetAllocation → Result Error (List RoundAssetTree)
  unfolding asset_tree
  asset_trees position [] = ok []
  asset_trees position (allocation ∷ rest) = do
    tree ← asset_tree position allocation
    trees ← asset_trees (suc position) rest
    ok (tree ∷ trees)

  unfoldable pub asset_hashes : List RoundAssetTree → Result Error (List Bytes)
  asset_hashes [] = ok []
  asset_hashes (asset ∷ rest) = do
    bytes ← lift (asset_leaf_bytes program_id distributor round_id asset.tuple)
    hashes ← asset_hashes rest
    ok (digest bytes ∷ hashes)

  unfoldable pub build_round_trees : List AssetAllocation → Result Error RoundTrees
  unfolding asset_trees asset_hashes
  build_round_trees [] =
      ok (record { assets_root = replicate 32 0; assets_tree = none; assets = [] })
  build_round_trees (allocation ∷ rest) = do
    assets ← asset_trees 0 (allocation ∷ rest)
    hashes ← asset_hashes assets
    tree ← lift (merkle_tree digest hashes)
    ok (record { assets_root = root tree; assets_tree = some tree; assets = assets })
