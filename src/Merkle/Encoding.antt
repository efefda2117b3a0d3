-- ===== src/Merkle/Encoding.antt =====
-- What is hashed for a payout leaf determines the leaf.
use native.Mathlib.Nat.{pow-suc}
use mathlib.Core.List.{head-eq_of_cons-eq, tail-eq_of_cons-eq}
use stonkfolio.Prelude.{
  ℕ, zero, suc, ◌/◌, ◌%◌, ◌^◌, ◌<◌, ◌≡◌, ◌∙◌, refl, sym, ap₂, [], ◌∷◌, ◌++◌, length, leb, arith, ok,
  refuse-eq-ok, ok-inj, >>=-eq-ok,
}
use stonkfolio.Merkle.{
  Bytes, little_endian, unsigned, u64le, u32le, u8, PayoutLeaf, payout_leaf_bytes, leaf_prefix,
  joined,
}

length-little_endian : (width value : ℕ) → length (little_endian width value) ≡ width
unfolding little_endian
length-little_endian zero value = refl
length-little_endian (suc width) value = omega (arith, length-little_endian width (value / 256))

div-bound : (width v : ℕ) → v < 256 ^ suc width → v / 256 < 256 ^ width
div-bound width v h = omega (arith, pow-suc 256 width)

little_endian-inj :
    (width a b : ℕ)
    → a < 256 ^ width
    → b < 256 ^ width
    → little_endian width a ≡ little_endian width b
    → a ≡ b
unfolding little_endian
little_endian-inj zero a b ha hb e = let one : 256 ^ 0 ≡ 1 = refl in omega (arith, one)
little_endian-inj (suc width) a b ha hb e =
    let low : a % 256 ≡ b % 256 = head-eq_of_cons-eq e in
    let high =
      little_endian-inj width (a / 256) (b / 256) (div-bound width a ha) (div-bound width b hb)
        (tail-eq_of_cons-eq e) in
    omega (arith, low, high)

-- Two texts of the same length in front: they and what follows them are the same.
append-inj :
    (xs ys us vs : Bytes) → length xs ≡ length ys → xs ++ us ≡ ys ++ vs → (xs ≡ ys) × (us ≡ vs)
append-inj [] [] us vs l e = (refl, e)
append-inj [] (y ∷ ys) us vs l e = absurd (omega arith)
append-inj (x ∷ xs) [] us vs l e = absurd (omega arith)
append-inj (x ∷ xs) (y ∷ ys) us vs l e =
    let (same, rest) = append-inj xs ys us vs (omega arith) (tail-eq_of_cons-eq e) in
    (ap₂ ◌∷◌ (head-eq_of_cons-eq e) same, rest)

unsigned-eq-ok :
    (width value : ℕ) {bs : Bytes}
    → unsigned width value ≡ ok bs
    → (value < 256 ^ width) × (bs ≡ little_endian width value)
unfolding unsigned
unsigned-eq-ok width value h =
    let (fits, same) = refuse-eq-ok (leb (256 ^ width) value) _ _ h in
    (ground arith, sym (ok-inj same))

-- What stands in a payout leaf's bytes from each number on.
abbrev from_key : PayoutLeaf → Bytes
from_key leaf = leaf.recipient ++ (little_endian 8 leaf.amount ++ [])

abbrev from_idx : PayoutLeaf → Bytes
from_idx leaf = little_endian 4 leaf.leaf_idx ++ from_key leaf

abbrev from_asset : ℕ → PayoutLeaf → Bytes
from_asset asset_idx leaf = little_endian 1 asset_idx ++ from_idx leaf

abbrev from_round : (round_id asset_idx : ℕ) → PayoutLeaf → Bytes
from_round round_id asset_idx leaf = little_endian 8 round_id ++ from_asset asset_idx leaf

widths : (width a b : ℕ) → length (little_endian width a) ≡ length (little_endian width b)
widths width a b = length-little_endian width a ∙ sym (length-little_endian width b)

-- The numbers of a payout leaf, within their widths, and the bytes that are hashed for it.
record IsEncoded (program_id distributor : Bytes) (round_id asset_idx : ℕ) (leaf : PayoutLeaf)
    (bs : Bytes) : Type 0 where
  round : round_id < 256 ^ 8
  asset : asset_idx < 256 ^ 1
  idx : leaf.leaf_idx < 256 ^ 4
  amount : leaf.amount < 256 ^ 8
  bytes :
      bs
      ≡ joined (
          (leaf_prefix ∷ [])
          ∷ program_id
          ∷ distributor
          ∷ little_endian 8 round_id
          ∷ little_endian 1 asset_idx
          ∷ little_endian 4 leaf.leaf_idx
          ∷ leaf.recipient
          ∷ little_endian 8 leaf.amount
          ∷ [])

module _ (program_id distributor : Bytes) where
  payout_leaf_bytes-IsEncoded :
      (round_id asset_idx : ℕ) (leaf : PayoutLeaf) {bs : Bytes}
      → payout_leaf_bytes program_id distributor round_id asset_idx leaf ≡ ok bs
      → IsEncoded program_id distributor round_id asset_idx leaf bs
  unfolding payout_leaf_bytes
  payout_leaf_bytes-IsEncoded round_id asset_idx leaf h =
      let (r, er, h1) = >>=-eq-ok (u64le round_id) _ h in
      let (a, ea, h2) = >>=-eq-ok (u8 asset_idx) _ h1 in
      let (i, ei, h3) = >>=-eq-ok (u32le leaf.leaf_idx) _ h2 in
      let (m, em, h4) = >>=-eq-ok (u64le leaf.amount) _ h3 in
      let (rb, rs) = unsigned-eq-ok 8 round_id er in
      let (ab, as') = unsigned-eq-ok 1 asset_idx ea in
      let (ib, is) = unsigned-eq-ok 4 leaf.leaf_idx ei in
      let (mb, ms) = unsigned-eq-ok 8 leaf.amount em in
      record { round = rb; asset = ab; idx = ib; amount = mb; bytes = cc }

  -- For one program and distributor, two payout leaves whose recipients' keys are of the same length are
  -- hashed from the same bytes only if they are the same leaf of the same asset and round.
  pub payout_leaf_bytes-inj :
      (round_id round_id' asset_idx asset_idx' : ℕ) (leaf leaf' : PayoutLeaf) {bs : Bytes}
      → length leaf.recipient ≡ length leaf'.recipient
      → payout_leaf_bytes program_id distributor round_id asset_idx leaf ≡ ok bs
      → payout_leaf_bytes program_id distributor round_id' asset_idx' leaf' ≡ ok bs
      → (round_id ≡ round_id')
        × (asset_idx ≡ asset_idx')
        × (leaf.leaf_idx ≡ leaf'.leaf_idx)
        × (leaf.recipient ≡ leaf'.recipient)
        × (leaf.amount ≡ leaf'.amount)
  payout_leaf_bytes-inj round_id round_id' asset_idx asset_idx' leaf leaf' keys h h' =
      let one = payout_leaf_bytes-IsEncoded round_id asset_idx leaf h in
      let two = payout_leaf_bytes-IsEncoded round_id' asset_idx' leaf' h' in
      let same = tail-eq_of_cons-eq (sym one.bytes ∙ two.bytes) in
      let (_, e1) =
        append-inj program_id program_id (distributor ++ from_round round_id asset_idx leaf)
          (distributor ++ from_round round_id' asset_idx' leaf') refl same in
      let (_, e2) =
        append-inj distributor distributor (from_round round_id asset_idx leaf)
          (from_round round_id' asset_idx' leaf') refl e1 in
      let (er, e3) =
        append-inj (little_endian 8 round_id) (little_endian 8 round_id')
          (from_asset asset_idx leaf) (from_asset asset_idx' leaf') (widths 8 round_id round_id')
          e2 in
      let (ea, e4) =
        append-inj (little_endian 1 asset_idx) (little_endian 1 asset_idx') (from_idx leaf)
          (from_idx leaf') (widths 1 asset_idx asset_idx') e3 in
      let (ei, e5) =
        append-inj (little_endian 4 leaf.leaf_idx) (little_endian 4 leaf'.leaf_idx) (from_key leaf)
          (from_key leaf') (widths 4 leaf.leaf_idx leaf'.leaf_idx) e4 in
      let (ek, em) =
        append-inj leaf.recipient leaf'.recipient (little_endian 8 leaf.amount ++ [])
          (little_endian 8 leaf'.amount ++ []) keys e5 in
      let (ez, _) =
        append-inj (little_endian 8 leaf.amount) (little_endian 8 leaf'.amount) [] []
          (widths 8 leaf.amount leaf'.amount) em in
      (
        little_endian-inj 8 round_id round_id' one.round two.round er,
        little_endian-inj 1 asset_idx asset_idx' one.asset two.asset ea,
        little_endian-inj 4 leaf.leaf_idx leaf'.leaf_idx one.idx two.idx ei,
        ek,
        little_endian-inj 8 leaf.amount leaf'.amount one.amount two.amount ez,
      )
