-- ===== src/Round/Asset.antt =====
-- `allocateAsset` of keeper/round/allocate.ts: one asset split among the eligible wallets.
pub mod Passes
pub mod Leaves
pub mod Trim
pub mod Shares
pub mod Served
use Prim.Native.String.{String}
use stonkfolio.Prelude.{
  ℕ, zero, suc, ◌+◌, ◌-◌, Bool, true, false, ◌||◌, not, List, [], ◌∷◌, map, length, take, filter,
  every, Option, some, none, Result, ok, err, ◌>>=◌, ◌>>◌, ltb, leb, ◌==◌, if◌then◌else◌,
}
use stonkfolio.Prelude.Int.{natural?}
use stonkfolio.Prelude.Sort.{sort_by}
use stonkfolio.Prelude.Sums.{sum}
use stonkfolio.Prelude.Maps.{has}
use stonkfolio.Round.Types.{AssetInput, AssetShare, PayoutLeafRow, Error, negative_amounts, Keys}
use stonkfolio.Round.Holders.{le_key}
use stonkfolio.Round.Remainder.{Weighted, largest_remainder}

-- What `validateParams` has found in range.
pub record Limits : Type 0 where
  pub min_eligible : ℕ
  pub max_leaves : ℕ
  pub passes : ℕ

pub data Outcome : Type 0 where
  skipped : (reason : String) → Outcome
  shared : AssetShare → Outcome

-- The larger weight first, and the lower key at equal ones.
abbrev pub by_weight : Keys → Weighted → Weighted → Bool
by_weight keys a b =
    if a.weight == b.weight then le_key keys a.owner b.owner else ltb b.weight a.weight

-- `new Set(owners)`
unfoldable pub set_of : List String → List String
unfolding has
set_of [] = []
set_of (o ∷ rest) = let others = set_of rest in if has o others then others else o ∷ others

pub record Trimmed : Type 0 where
  pub pool : List Weighted
  pub truncated : ℕ

-- The pool cut down to the largest holders.
unfoldable pub truncate : Keys → (max_leaves : ℕ) → List Weighted → Trimmed
unfolding set_of sort_by
truncate keys max_leaves pool =
    let kept = set_of (map (λ p. p.owner) (take max_leaves (sort_by (by_weight keys) pool))) in
    if ltb max_leaves (length pool)
    then record {
      pool = filter (λ p. has p.owner kept) pool;
      truncated = length pool - length kept;
    }
    else record { pool = pool; truncated = 0 }

-- `pool.filter((_, i) => keep[i])`, with `keep[i]` for `amounts[i] >= minimum`
unfoldable pub keep_from : (minimum : ℕ) → List Weighted → (amounts : List ℕ) → List Weighted
keep_from minimum (p ∷ pool) (a ∷ amounts) =
    if leb minimum a then p ∷ keep_from minimum pool amounts else keep_from minimum pool amounts
keep_from minimum _ _ = []

pub record Passed : Type 0 where
  pub pool : List Weighted
  pub amounts : List ℕ
  pub dropped : ℕ

-- The passes that drop what is below the minimum and share out again.
unfoldable pub drop_passes : (passes allocatable minimum : ℕ) → Passed → Passed
unfolding keep_from largest_remainder
drop_passes zero allocatable minimum st = st
drop_passes (suc passes) allocatable minimum st =
    let next = keep_from minimum st.pool st.amounts in
    let again = drop_passes passes allocatable minimum (record {
      pool = next;
      amounts = largest_remainder allocatable next;
      dropped = st.dropped + (length st.pool - length next);
    }) in
    if length st.pool == 0 || every (leb minimum) st.amounts then st else again

-- The leaves of a non-zero amount, numbered from the given index on.
unfoldable pub leaves_from : ℕ → List Weighted → (amounts : List ℕ) → List PayoutLeafRow
leaves_from i (p ∷ pool) (a ∷ amounts) =
    let paid : PayoutLeafRow = record { leaf_idx = i; recipient = p.owner; amount = a } in
    if ltb 0 a then paid ∷ leaves_from (suc i) pool amounts else leaves_from i pool amounts
leaves_from i _ _ = []

abbrev pub leaf_amounts : List PayoutLeafRow → List ℕ
leaf_amounts leaves = map (λ l. l.amount) leaves

-- The share that the last pass comes to.
unfoldable pub share_of : AssetInput → (allocatable truncated : ℕ) → Passed → AssetShare
unfolding leaves_from sum
share_of asset allocatable truncated st =
    let leaves = leaves_from 0 st.pool st.amounts in
    let allocated = sum (leaf_amounts leaves) in
    record {
      mint = asset.mint;
      token_program = asset.token_program;
      allocatable = allocatable;
      allocated = allocated;
      dust = allocatable - allocated;
      dropped_below_min = st.dropped;
      truncated = truncated;
      leaves = leaves;
    }

-- What is made of the last pass.
unfoldable pub finish_asset : AssetInput → (allocatable truncated : ℕ) → Passed → Outcome
unfolding share_of
finish_asset asset allocatable truncated st =
    if length (leaves_from 0 st.pool st.amounts) == 0
    then skipped "no eligible recipients at or above the minimum payout"
    else shared (share_of asset allocatable truncated st)

-- The first pass over the trimmed pool, and the passes after it.
unfoldable pub share_asset : Keys → Limits → List Weighted → (allocatable minimum : ℕ) → Passed
unfolding truncate drop_passes
share_asset keys limits eligible allocatable minimum =
    let pool = (truncate keys limits.max_leaves eligible).pool in
    drop_passes limits.passes allocatable minimum
      (record { pool = pool; amounts = largest_remainder allocatable pool; dropped = 0 })

abbrev amounts_of : AssetInput → Result Error (ℕ × ℕ)
amounts_of asset = elim (natural? asset.allocatable) [
  | none ↦ err (negative_amounts asset.mint)
  | some allocatable ↦ elim (natural? asset.min_leaf_amount) [
    | none ↦ err (negative_amounts asset.mint)
    | some minimum ↦ ok (allocatable, minimum)
  ]
]

unfoldable pub allocate_asset : Keys → Limits → List Weighted → AssetInput → Result Error Outcome
unfolding share_asset finish_asset
allocate_asset keys limits eligible asset = do
  (allocatable, minimum) ← amounts_of asset
  ok (
      if allocatable == 0
      then skipped "nothing to allocate"
      else finish_asset asset allocatable (truncate keys limits.max_leaves eligible).truncated
          (share_asset keys limits eligible allocatable minimum))
