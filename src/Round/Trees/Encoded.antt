-- ===== src/Round/Trees/Encoded.antt =====
-- The bytes of a leaf are returned where its numbers fit their widths.
use stonkfolio.Prelude.{ℕ, ◌^◌, ◌<◌, ◌≡◌, refl, false, [], ◌∷◌, leb, ok, arith}
use stonkfolio.Merkle.{
  Bytes, PayoutLeaf, AssetTuple, payout_leaf_bytes, asset_leaf_bytes, unsigned, little_endian,
  joined, leaf_prefix, asset_prefix,
}

unsigned-ok :
    (width value : ℕ) → value < 256 ^ width → unsigned width value ≡ ok (little_endian width value)
unfolding unsigned
unsigned-ok width value h =
    let fits : leb (256 ^ width) value ≡ false = ground arith in rw fits refl

module _ (program_id distributor : Bytes) (round_id : ℕ) (round : round_id < 256 ^ 8) where
  pub payout_leaf_bytes-ok :
      (asset_idx : ℕ) (leaf : PayoutLeaf)
      → asset_idx < 256 ^ 1
      → leaf.leaf_idx < 256 ^ 4
      → leaf.amount < 256 ^ 8
      → (bs : Bytes) × (payout_leaf_bytes program_id distributor round_id asset_idx leaf ≡ ok bs)
  unfolding payout_leaf_bytes
  payout_leaf_bytes-ok asset_idx leaf a i m = (
    joined (
        (leaf_prefix ∷ [])
        ∷ program_id
        ∷ distributor
        ∷ little_endian 8 round_id
        ∷ little_endian 1 asset_idx
        ∷ little_endian 4 leaf.leaf_idx
        ∷ leaf.recipient
        ∷ little_endian 8 leaf.amount
        ∷ []),
    rw
        (
          unsigned-ok 8 round_id round,
          unsigned-ok 1 asset_idx a,
          unsigned-ok 4 leaf.leaf_idx i,
          unsigned-ok 8 leaf.amount m,
        )
        refl,
  )

  pub asset_leaf_bytes-ok :
      (asset : AssetTuple)
      → asset.asset_idx < 256 ^ 1
      → asset.leaf_count < 256 ^ 4
      → asset.allocated < 256 ^ 8
      → (bs : Bytes) × (asset_leaf_bytes program_id distributor round_id asset ≡ ok bs)
  unfolding asset_leaf_bytes
  asset_leaf_bytes-ok asset a i m = (
    joined (
        (asset_prefix ∷ [])
        ∷ program_id
        ∷ distributor
        ∷ little_endian 8 round_id
        ∷ little_endian 1 asset.asset_idx
        ∷ asset.mint
        ∷ asset.token_program
        ∷ asset.merkle_root
        ∷ little_endian 8 asset.allocated
        ∷ little_endian 4 asset.leaf_count
        ∷ []),
    rw
        (
          unsigned-ok 8 round_id round,
          unsigned-ok 1 asset.asset_idx a,
          unsigned-ok 8 asset.allocated m,
          unsigned-ok 4 asset.leaf_count i,
        )
        refl,
  )
