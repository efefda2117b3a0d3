-- ===== src/Merkle/Pairs.antt =====
-- The hash of two nodes does not depend on their order.
use stonkfolio.Prelude.{◌≡◌, refl, ap₂, true, false, [], ◌∷◌, arith, Bool-cases, inl, inr}
use stonkfolio.Round.Holders.{le_bytes}
use stonkfolio.Merkle.{Bytes, hash_pair, same_bytes}

le_bytes_total : (a b : Bytes) → le_bytes a b ≡ false → le_bytes b a ≡ true
unfolding le_bytes
le_bytes_total [] b h = cc
le_bytes_total (x ∷ a) [] h = refl
le_bytes_total (x ∷ a) (y ∷ b) h = ground (arith, le_bytes_total a b)

le_bytes_antisym : (a b : Bytes) → le_bytes a b ≡ true → le_bytes b a ≡ true → a ≡ b
unfolding le_bytes
le_bytes_antisym [] [] h k = refl
le_bytes_antisym [] (y ∷ b) h k = cc
le_bytes_antisym (x ∷ a) [] h k = cc
le_bytes_antisym (x ∷ a) (y ∷ b) h k =
    ap₂ ◌∷◌ (ground arith) (le_bytes_antisym a b (ground arith) (ground arith))

pub same_bytes_refl : (a : Bytes) → same_bytes a a ≡ true
unfolding same_bytes
same_bytes_refl [] = refl
same_bytes_refl (x ∷ a) = ground (arith, same_bytes_refl a)

module _ (digest : Bytes → Bytes) where
  pub hash_pair_comm : (a b : Bytes) → hash_pair digest a b ≡ hash_pair digest b a
  hash_pair_comm a b = elim (Bool-cases (le_bytes a b)) [
    | inl le ↦ elim (Bool-cases (le_bytes b a)) [
      | inl ge ↦ let same = le_bytes_antisym a b le ge in rw same refl
      | inr lt ↦ rw (le, lt) refl
    ]
    | inr gt ↦ let ge = le_bytes_total a b gt in rw (gt, ge) refl
  ]
