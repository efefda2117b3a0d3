-- ===== src/Merkle.antt =====
-- lib/merkle.ts: the Merkle trees of payouts and of a round's assets. A buffer is the list of its bytes,
-- and the digest of sha256 a parameter.
pub mod Pairs
pub mod Climb
pub mod Encoding
mod Tests
use stonkfolio.Prelude.{
  ℕ, zero, suc, ◌+◌, ◌-◌, ◌*◌, ◌/◌, ◌%◌, ◌^◌, Bool, true, false, ◌&&◌, ◌||◌, not, List, [], ◌∷◌,
  ◌++◌, length, get_or, Result, ok, err, ◌>>=◌, ◌>>◌, refuse, ltb, leb, ◌==◌, if◌then◌else◌,
}
use stonkfolio.Round.Holders.{le_bytes}

pub data Error : Type 0 where
  not_unsigned : (width value : ℕ) → Error
  no_leaf : Error
  out_of_range : (index : ℕ) → Error
  no_block : (level first_leaf : ℕ) → Error

abbrev pub Bytes : Type 0
Bytes = List ℕ

abbrev pub leaf_prefix : ℕ
leaf_prefix = 0

abbrev pub node_prefix : ℕ
node_prefix = 1

abbrev pub asset_prefix : ℕ
asset_prefix = 2

-- The bytes of a number, the lowest first.
unfoldable pub little_endian : (width : ℕ) → ℕ → Bytes
little_endian zero value = []
little_endian (suc width) value = value % 256 ∷ little_endian width (value / 256)

-- `writeBigUInt64LE`, `writeUInt32LE` and `Buffer.from([value])` after its test, which all refuse what
-- does not fit the width.
unfoldable pub unsigned : (width : ℕ) → ℕ → Result Error Bytes
unfolding little_endian
unsigned width value = do
  refuse (leb (256 ^ width) value) (not_unsigned width value)
  ok (little_endian width value)

abbrev pub u64le : ℕ → Result Error Bytes
u64le value = unsigned 8 value

abbrev pub u32le : ℕ → Result Error Bytes
u32le value = unsigned 4 value

abbrev pub u8 : ℕ → Result Error Bytes
u8 value = unsigned 1 value

pub record PayoutLeaf : Type 0 where
  pub leaf_idx : ℕ
  pub recipient : Bytes
  pub amount : ℕ

pub record AssetTuple : Type 0 where
  pub asset_idx : ℕ
  pub mint : Bytes
  pub token_program : Bytes
  pub merkle_root : Bytes
  pub allocated : ℕ
  pub leaf_count : ℕ

-- What `sha256` updates the hash with: the parts in turn.
abbrev pub joined : List Bytes → Bytes
joined [] = []
joined (part ∷ parts) = part ++ joined parts

-- What is hashed for a payout leaf.
unfoldable pub payout_leaf_bytes :
    (program_id distributor : Bytes) (round_id asset_idx : ℕ) → PayoutLeaf → Result Error Bytes
unfolding unsigned
payout_leaf_bytes program_id distributor round_id asset_idx leaf = do
  round ← u64le round_id
  asset ← u8 asset_idx
  idx ← u32le leaf.leaf_idx
  amount ← u64le leaf.amount
  ok (
      joined (
        (leaf_prefix ∷ [])
        ∷ program_id
        ∷ distributor
        ∷ round
        ∷ asset
        ∷ idx
        ∷ leaf.recipient
        ∷ amount
        ∷ []))

-- What is hashed for the leaf of an asset.
unfoldable pub asset_leaf_bytes :
    (program_id distributor : Bytes) (round_id : ℕ) → AssetTuple → Result Error Bytes
unfolding unsigned
asset_leaf_bytes program_id distributor round_id asset = do
  round ← u64le round_id
  idx ← u8 asset.asset_idx
  allocated ← u64le asset.allocated
  count ← u32le asset.leaf_count
  ok (
      joined (
        (asset_prefix ∷ [])
        ∷ program_id
        ∷ distributor
        ∷ round
        ∷ idx
        ∷ asset.mint
        ∷ asset.token_program
        ∷ asset.merkle_root
        ∷ allocated
        ∷ count
        ∷ []))

-- `a.equals(b)`
unfoldable pub same_bytes : Bytes → Bytes → Bool
same_bytes [] [] = true
same_bytes (a ∷ as') (b ∷ bs) = a == b && same_bytes as' bs
same_bytes _ _ = false

pub record MerkleTree : Type 0 where
  pub levels : List (List Bytes)

-- The levels but the last: `levels.slice(0, -1)`.
unfoldable pub lower : List (List Bytes) → List (List Bytes)
lower [] = []
lower (level ∷ []) = []
lower (level ∷ next ∷ rest) = level ∷ lower (next ∷ rest)

unfoldable pub top : List (List Bytes) → List Bytes
top [] = []
top (level ∷ []) = level
top (level ∷ next ∷ rest) = top (next ∷ rest)

-- `idx ^ 1`, for indices that fit 32 bits
abbrev pub sibling_of : ℕ → ℕ
sibling_of idx = if idx % 2 == 0 then idx + 1 else idx - 1

unfoldable pub skip_levels : ℕ → List (List Bytes) → List (List Bytes)
skip_levels zero levels = levels
skip_levels (suc n) [] = []
skip_levels (suc n) (level ∷ levels) = skip_levels n levels

-- The siblings that a node meets on the way up the levels.
unfoldable pub siblings : (idx : ℕ) → List (List Bytes) → List Bytes
siblings idx [] = []
siblings idx (level ∷ levels) =
    let rest = siblings (idx / 2) levels in
    if ltb (sibling_of idx) (length level) then get_or level (sibling_of idx) [] ∷ rest else rest

unfoldable pub root : MerkleTree → Bytes
unfolding top
root tree = get_or (top tree.levels) 0 []

-- `this.levels[0]`
abbrev pub bottom : List (List Bytes) → List Bytes
bottom [] = []
bottom (level ∷ levels) = level

unfoldable pub block_proof : MerkleTree → (first_leaf level : ℕ) → Result Error (List Bytes)
unfolding siblings lower skip_levels
block_proof tree first_leaf level = do
  refuse (not (first_leaf % 2 ^ level == 0) || leb (length (bottom tree.levels)) first_leaf)
      (no_block level first_leaf)
  ok (siblings (first_leaf / 2 ^ level) (skip_levels level (lower tree.levels)))

unfoldable pub proof : MerkleTree → (index : ℕ) → Result Error (List Bytes)
unfolding block_proof
proof tree index = do
  refuse (leb (length (bottom tree.levels)) index) (out_of_range index)
  block_proof tree index 0

module _ (digest : Bytes → Bytes) where
  abbrev pub hash_pair : Bytes → Bytes → Bytes
  hash_pair a b =
      if le_bytes a b
      then digest (joined ((node_prefix ∷ []) ∷ a ∷ b ∷ []))
      else digest (joined ((node_prefix ∷ []) ∷ b ∷ a ∷ []))

  -- The level above: pairs hashed, and an odd node carried up unchanged.
  unfoldable pub next_level : List Bytes → List Bytes
  next_level [] = []
  next_level (a ∷ []) = a ∷ []
  next_level (a ∷ b ∷ nodes) = hash_pair a b ∷ next_level nodes

  -- The loop of the constructor; the fuel counts its rounds.
  unfoldable pub levels_from : (fuel : ℕ) → List Bytes → List (List Bytes)
  unfolding next_level
  levels_from zero nodes = nodes ∷ []
  levels_from (suc fuel) nodes =
      let above = levels_from fuel (next_level nodes) in
      if ltb 1 (length nodes) then nodes ∷ above else nodes ∷ []

  unfoldable pub merkle_tree : List Bytes → Result Error MerkleTree
  unfolding levels_from
  merkle_tree leaves = do
    refuse (length leaves == 0) no_leaf
    ok (record { levels = levels_from (length leaves) leaves })

  unfoldable pub climb : Bytes → List Bytes → Bytes
  climb node [] = node
  climb node (sibling ∷ proof') = climb (hash_pair node sibling) proof'

  unfoldable pub verify_proof : List Bytes → (root leaf : Bytes) → Bool
  unfolding climb same_bytes
  verify_proof proof' root' leaf = same_bytes (climb leaf proof') root'
