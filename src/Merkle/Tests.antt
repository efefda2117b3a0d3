-- ===== src/Merkle/Tests.antt =====
-- A tree of three leaves under a small digest.
use stonkfolio.Prelude.{ℕ, ◌+◌, ◌<◌, ◌≡◌, refl, true, List, [], ◌∷◌, length, get_or, ok, arith}
use stonkfolio.Merkle.Encoding.{payout_leaf_bytes-inj}
use stonkfolio.Merkle.{
  Bytes, PayoutLeaf, payout_leaf_bytes, MerkleTree, merkle_tree, top, root, proof, verify_proof,
}
use stonkfolio.Merkle.Climb.{proof-verifies}

abbrev digest : Bytes → Bytes
digest [] = 0 ∷ []
digest (b ∷ bytes) = (b + length bytes) ∷ bytes

abbrev leaves : List Bytes
leaves = (1 ∷ []) ∷ (2 ∷ []) ∷ (3 ∷ []) ∷ []

proof-verifies_example :
    (tree : MerkleTree) × (merkle_tree digest leaves ≡ ok tree)
    × (length (top tree.levels) ≡ 1)
    × ((i : ℕ)
        → i < length leaves
        → (path : List Bytes) × (proof tree i ≡ ok path)
          × (verify_proof digest path (root tree) (get_or leaves i []) ≡ true))
proof-verifies_example = proof-verifies digest leaves (omega arith)

abbrev payout : PayoutLeaf
payout = record { leaf_idx = 3; recipient = 7 ∷ 9 ∷ []; amount = 1000 }

payout_leaf_bytes-inj_example :
    ◌≡◌ {A = ℕ} 5 5
    × ◌≡◌ {A = ℕ} 1 1
    × (payout.leaf_idx ≡ payout.leaf_idx)
    × (payout.recipient ≡ payout.recipient)
    × (payout.amount ≡ payout.amount)
unfolding payout_leaf_bytes
payout_leaf_bytes-inj_example =
    payout_leaf_bytes-inj (1 ∷ []) (2 ∷ []) 5 5 1 1 payout payout
      {bs = 0 ∷ 1 ∷ 2 ∷ 5 ∷ 0 ∷ 0 ∷ 0 ∷ 0 ∷ 0 ∷ 0 ∷ 0 ∷ 1 ∷ 3 ∷ 0 ∷ 0 ∷ 0 ∷ 7 ∷ 9 ∷ 232 ∷ 3 ∷ 0 ∷ 0
        ∷ 0 ∷ 0 ∷ 0 ∷ 0 ∷ []}
      refl refl refl
