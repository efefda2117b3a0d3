-- ===== src/Round/Remainder.antt =====
-- `largestRemainder` of keeper/round/allocate.ts: a total split in proportion to the weights, the
-- left-over units going to the largest remainders.
pub mod Order
pub mod Exact
pub mod Fair
use Prim.Native.String.{String}
use stonkfolio.Prelude.{
  ℕ, zero, suc, ◌+◌, ◌-◌, Bool, true, false, List, [], ◌∷◌, map, length, get_or, set, ltb, leb,
  ◌==◌, if◌then◌else◌,
}
use stonkfolio.Prelude.Sort.{sort_by}
use stonkfolio.Prelude.Sums.{sum, floors, leftovers}

pub record Weighted : Type 0 where
  pub owner : String
  pub weight : ℕ

abbrev pub weights : List Weighted → List ℕ
weights pool = map (λ p. p.weight) pool

-- The indices from the given one on, one for each entry.
unfoldable pub indices {ℓ} : {A : Type ℓ} → ℕ → List A → List ℕ
indices i [] = []
indices i (x ∷ xs) = i ∷ indices (suc i) xs

-- The larger remainder first, and the lower index at equal ones.
abbrev pub by_remainder : List ℕ → ℕ → ℕ → Bool
by_remainder remainders i j =
    if get_or remainders i 0 == get_or remainders j 0
    then leb i j
    else ltb (get_or remainders j 0) (get_or remainders i 0)

-- One unit to each index in turn, until none is left.
unfoldable pub hand_out : List ℕ → (left : ℕ) → List ℕ → List ℕ
hand_out [] left amounts = amounts
hand_out (i ∷ rest) zero amounts = amounts
hand_out (i ∷ rest) (suc left) amounts = hand_out rest left (set amounts i (get_or amounts i 0 + 1))

unfoldable pub remainder_order : (total : ℕ) → List Weighted → List ℕ
unfolding indices sort_by sum
remainder_order total pool =
    sort_by (by_remainder (leftovers total (sum (weights pool)) (weights pool))) (indices 0 pool)

unfoldable pub largest_remainder : (total : ℕ) → List Weighted → List ℕ
unfolding remainder_order hand_out sum
largest_remainder total pool =
    let total_weight = sum (weights pool) in
    let amounts = floors total total_weight (weights pool) in
    if total_weight == 0
    then map (λ p. 0) pool
    else hand_out (remainder_order total pool) (total - sum amounts) amounts
