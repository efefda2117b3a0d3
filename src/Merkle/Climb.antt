-- ===== src/Merkle/Climb.antt =====
-- Every proof that a tree gives leads from its leaf to the root.
use stonkfolio.Prelude.{
  ℕ, zero, suc, ◌+◌, ◌/◌, ◌%◌, ◌^◌, ◌<◌, ◌≤◌, ◌≡◌, refl, ap, true, false, List, [], ◌∷◌, length,
  get_or, ltb, leb, ◌==◌, if◌then◌else◌, arith, Bool-cases, inl, inr, ok,
}
use stonkfolio.Merkle.{
  Bytes, MerkleTree, lower, top, bottom, sibling_of, siblings, root, proof, hash_pair, next_level,
  levels_from, merkle_tree, climb, verify_proof,
}
use stonkfolio.Merkle.Pairs.{hash_pair_comm, same_bytes_refl}

sibling_of-suc : (i : ℕ) → sibling_of (suc (suc i)) ≡ suc (suc (sibling_of i))
sibling_of-suc i =
    let even : suc (suc i) % 2 ≡ i % 2 = omega arith in
    elim (Bool-cases (i % 2 == 0)) [
      | inl e ↦ rw (even, e) (omega arith)
      | inr o ↦ let odd : 0 < i = ground arith in rw (even, o) (omega arith)
    ]

ltb-suc : (i n : ℕ) → ltb (suc (suc i)) (suc (suc n)) ≡ ltb i n
ltb-suc i n = ground arith

module _ (digest : Bytes → Bytes) where
  -- What stands above a node: the hash of it and its sibling, or the node itself where it has none.
  parent :
      (nodes : List Bytes) (i : ℕ)
      → i < length nodes
      → get_or (next_level digest nodes) (i / 2) [] ≡ (
          if ltb (sibling_of i) (length nodes)
          then hash_pair digest (get_or nodes i []) (get_or nodes (sibling_of i) [])
          else get_or nodes i [])
  unfolding next_level
  parent [] i h = absurd (omega arith)
  parent (a ∷ []) zero h = refl
  parent (a ∷ []) (suc i) h = absurd (omega arith)
  parent (a ∷ b ∷ nodes) zero h =
      let pair : ltb 1 (length (a ∷ b ∷ nodes)) ≡ true = ground arith in rw pair refl
  parent (a ∷ b ∷ nodes) (suc zero) h =
      let pair : ltb 0 (length (a ∷ b ∷ nodes)) ≡ true = ground arith in
      rw pair (hash_pair_comm digest a b)
  parent (a ∷ b ∷ nodes) (suc (suc i)) h =
      let half : suc (suc i) / 2 ≡ suc (i / 2) = omega arith in
      rw (half, sibling_of-suc i)
        (let inside : ltb (suc (suc (sibling_of i))) (length (a ∷ b ∷ nodes))
              ≡ ltb (sibling_of i) (length nodes) =
            ltb-suc (sibling_of i) (length nodes) in
          rw inside (parent nodes i (omega arith)))

  length-next_level :
      (nodes : List Bytes) → length (next_level digest nodes) ≡ (length nodes + 1) / 2
  unfolding next_level
  length-next_level [] = refl
  length-next_level (a ∷ []) = refl
  length-next_level (a ∷ b ∷ nodes) = omega (arith, length-next_level nodes)

  lower-levels_from :
      (level : List Bytes) (fuel : ℕ) (nodes : List Bytes)
      → lower (level ∷ levels_from digest fuel nodes)
        ≡ level ∷ lower (levels_from digest fuel nodes)
  unfolding levels_from lower
  lower-levels_from level zero nodes = refl
  lower-levels_from level (suc fuel) nodes = elim (Bool-cases (ltb 1 (length nodes))) [
    | inl e ↦ rw e refl
    | inr e ↦ rw e refl
  ]

  top-levels_from :
      (level : List Bytes) (fuel : ℕ) (nodes : List Bytes)
      → top (level ∷ levels_from digest fuel nodes) ≡ top (levels_from digest fuel nodes)
  unfolding levels_from top
  top-levels_from level zero nodes = refl
  top-levels_from level (suc fuel) nodes = elim (Bool-cases (ltb 1 (length nodes))) [
    | inl e ↦ rw e refl
    | inr e ↦ rw e refl
  ]

  climb-levels_from :
      (fuel : ℕ) (nodes : List Bytes) (i : ℕ)
      → length nodes ≤ suc fuel
      → i < length nodes
      → climb digest (get_or nodes i []) (siblings i (lower (levels_from digest fuel nodes)))
        ≡ get_or (top (levels_from digest fuel nodes)) 0 []
  unfolding levels_from lower top siblings climb
  climb-levels_from zero nodes i l h = let first : i ≡ 0 = omega arith in rw first refl
  climb-levels_from (suc fuel) nodes i l h = elim (Bool-cases (ltb 1 (length nodes))) [
    | inr e ↦ let first : i ≡ 0 = ground arith in rw (e, first) refl
    | inl e ↦
        let next = next_level digest nodes in
        let size = length-next_level nodes in
        let ih = climb-levels_from fuel next (i / 2) (ground arith) (omega arith) in
        let up = parent nodes i h in
        rw (e, lower-levels_from nodes fuel next, top-levels_from nodes fuel next)
          (elim (Bool-cases (ltb (sibling_of i) (length nodes))) [
            | inl s ↦ rw s (rw (rw s at up) at ih)
            | inr s ↦ rw s (rw (rw s at up) at ih)
          ])
  ]

  top-levels_from-single :
      (fuel : ℕ) (nodes : List Bytes)
      → length nodes ≤ suc fuel
      → 0 < length nodes
      → length (top (levels_from digest fuel nodes)) ≡ 1
  unfolding levels_from top
  top-levels_from-single zero nodes l h = omega arith
  top-levels_from-single (suc fuel) nodes l h = elim (Bool-cases (ltb 1 (length nodes))) [
    | inr e ↦ rw e (ground arith)
    | inl e ↦
        let next = next_level digest nodes in
        let size = length-next_level nodes in
        rw (e, top-levels_from nodes fuel next)
          (top-levels_from-single fuel next (ground arith) (omega arith))
  ]

  bottom-levels_from :
      (fuel : ℕ) (nodes : List Bytes) → bottom (levels_from digest fuel nodes) ≡ nodes
  unfolding levels_from
  bottom-levels_from zero nodes = refl
  bottom-levels_from (suc fuel) nodes = ground arith

  proof-siblings :
      (leaves : List Bytes) (i : ℕ)
      → i < length leaves
      → proof (record { levels = levels_from digest (length leaves) leaves }) i
        ≡ ok (siblings i (lower (levels_from digest (length leaves) leaves)))
  unfolding proof
  proof-siblings leaves i h =
      let size = ap length (bottom-levels_from (length leaves) leaves) in
      let inside : leb (length (bottom (levels_from digest (length leaves) leaves))) i ≡ false =
        ground arith in
      let aligned : (i % 2 ^ 0 == 0) ≡ true = ground arith in
      let whole : i / 2 ^ 0 ≡ i = omega arith in rw (inside, aligned, whole) refl

  -- Whatever the leaves, if there is one the constructor returns a tree whose last level is one node, and
  -- for each index below their number `proof` returns a proof which `verifyProof` accepts for that leaf.
  pub proof-verifies :
      (leaves : List Bytes)
      → 0 < length leaves
      → (tree : MerkleTree) × (merkle_tree digest leaves ≡ ok tree)
        × (length (top tree.levels) ≡ 1)
        × ((i : ℕ)
            → i < length leaves
            → (path : List Bytes) × (proof tree i ≡ ok path)
              × (verify_proof digest path (root tree) (get_or leaves i []) ≡ true))
  unfolding merkle_tree verify_proof root
  proof-verifies leaves filled =
      let tree : MerkleTree = record { levels = levels_from digest (length leaves) leaves } in
      let some_leaf : (length leaves == 0) ≡ false = ground arith in
      (
        tree,
        rw some_leaf refl,
        top-levels_from-single (length leaves) leaves (omega arith) filled,
        λ i h.
            let up = climb-levels_from (length leaves) leaves i (omega arith) h in
            (
              siblings i (lower tree.levels),
              proof-siblings leaves i h,
              rw up (same_bytes_refl (root tree)),
            ),
      )
