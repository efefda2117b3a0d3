-- ===== src/Round/Types.antt =====
-- keeper/round/types.ts: the shapes that the round pipeline shares. What the code tests for a sign is
-- an integer here, and what it has tested is a natural number; slots, indices and times are whole
-- numbers. An owner, mint or address is its base58 text.
use Prim.Native.String.{String}
use stonkfolio.Prelude.{ℕ, Bool, List}
use stonkfolio.Prelude.Int.{ℤ, Number}

pub record Rational : Type 0 where
  pub num : ℤ
  pub den : ℤ

pub record TokenAccountRow : Type 0 where
  pub address : String
  pub owner : String
  pub amount : ℤ

pub record Snapshot : Type 0 where
  pub index : ℕ
  pub slot : ℕ
  pub timestamp : ℕ
  pub pool_price : Rational
  pub accounts : List TokenAccountRow

pub record ExclusionEntry : Type 0 where
  pub owner : String
  pub reason : String

pub record AssetInput : Type 0 where
  pub mint : String
  pub token_program : String
  pub allocatable : ℤ
  pub min_leaf_amount : ℤ

pub record AllocationParams : Type 0 where
  pub min_eligible_usd_micro : ℤ
  pub max_leaves_per_asset : Number
  pub max_min_leaf_passes : Number

pub record AllocationInput : Type 0 where
  pub snapshots : List Snapshot
  pub exclusions : List ExclusionEntry
  pub assets : List AssetInput
  pub sol_usd_micro : ℤ
  pub params : AllocationParams

pub record HolderRow : Type 0 where
  pub owner : String
  pub sample_balances : List ℕ
  pub twab : ℕ
  pub value_usd_micro : ℕ
  pub eligible : Bool

pub record PayoutLeafRow : Type 0 where
  pub leaf_idx : ℕ
  pub recipient : String
  pub amount : ℕ

-- `Omit<AssetAllocation, "assetIdx">`, which `allocate` completes by the index.
pub record AssetShare : Type 0 where
  pub mint : String
  pub token_program : String
  pub allocatable : ℕ
  pub allocated : ℕ
  pub dust : ℕ
  pub dropped_below_min : ℕ
  pub truncated : ℕ
  pub leaves : List PayoutLeafRow

pub record AssetAllocation : Type 0 where
  pub asset_idx : ℕ
  pub share : AssetShare

pub record SkippedAsset : Type 0 where
  pub mint : String
  pub reason : String

pub record AllocationResult : Type 0 where
  pub median_pool_price : Rational
  pub holders : List HolderRow
  pub excluded : List ExclusionEntry
  pub assets : List AssetAllocation
  pub skipped : List SkippedAsset

-- What the allocation throws.
pub data Error : Type 0 where
  min_eligible_negative max_leaves_out_of_range passes_not_natural : Error
  no_snapshot sol_usd_not_positive duplicate_snapshot_index : Error
  no_values bad_price : Error
  negative_balance : (address : String) → Error
  listed_twice : (address : String) (index : ℕ) → Error
  negative_amounts : (mint : String) → Error
  invalid_key : Error
  too_many_assets duplicate_mint : Error

-- What `PublicKey` of @solana/web3.js says of a text: whether it is a base58 key, which the constructor
-- throws on where it is not; and of a key its bytes, and whether it is a point of the curve.
pub record Keys : Type 0 where
  pub is_key : String → Bool
  pub buffer : String → List ℕ
  pub is_on_curve : String → Bool
