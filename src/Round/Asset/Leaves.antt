-- ===== src/Round/Asset/Leaves.antt =====
-- The leaves made of the last pass.
use Prim.Native.String.{String}
use stonkfolio.Prelude.{
  ℕ, suc, ◌≤◌, ◌<◌, ◌≡◌, refl, ap, true, List, [], ◌∷◌, map, length, All, every, leb, ltb, arith,
  Bool-cases, inl, inr,
}
use stonkfolio.Prelude.Sums.{sum}
use stonkfolio.Prelude.Picked.{Picked, done, skip, keep, Picked-nil}
use stonkfolio.Round.Types.{PayoutLeafRow}
use stonkfolio.Round.Remainder.{Weighted, indices}
use stonkfolio.Round.Asset.{leaves_from, leaf_amounts}

abbrev pub owners : List Weighted → List String
owners pool = map (λ p. p.owner) pool

abbrev pub recipients : List PayoutLeafRow → List String
recipients leaves = map (λ l. l.recipient) leaves

-- No leaf is lost but those of nothing.
pub sum-leaves_from :
    (i : ℕ) (pool : List Weighted) (amounts : List ℕ)
    → length amounts ≡ length pool
    → sum (leaf_amounts (leaves_from i pool amounts)) ≡ sum amounts
unfolding leaves_from sum
sum-leaves_from i [] [] h = refl
sum-leaves_from i [] (a ∷ amounts) h = absurd (omega arith)
sum-leaves_from i (p ∷ pool) [] h = absurd (omega arith)
sum-leaves_from i (p ∷ pool) (a ∷ amounts) h = elim (Bool-cases (ltb 0 a)) [
  | inl e ↦ rw e (omega (arith, sum-leaves_from (suc i) pool amounts (omega arith)))
  | inr e ↦ rw e (ground (arith, sum-leaves_from i pool amounts (omega arith)))
]

-- The leaves are numbered without a gap, pay something each, and go to wallets of the pool, each in
-- its turn.
pub leaves_from-numbered :
    (i : ℕ) (pool : List Weighted) (amounts : List ℕ)
    → map (λ l. l.leaf_idx) (leaves_from i pool amounts) ≡ indices i (leaves_from i pool amounts)
unfolding leaves_from indices
leaves_from-numbered i [] amounts = refl
leaves_from-numbered i (p ∷ pool) [] = refl
leaves_from-numbered i (p ∷ pool) (a ∷ amounts) = elim (Bool-cases (ltb 0 a)) [
  | inl e ↦ rw e (ap (◌∷◌ i) (leaves_from-numbered (suc i) pool amounts))
  | inr e ↦ rw e (leaves_from-numbered i pool amounts)
]

pub leaves_from-positive :
    (i : ℕ) (pool : List Weighted) (amounts : List ℕ)
    → All (λ l. 0 < l.amount) (leaves_from i pool amounts)
unfolding leaves_from
leaves_from-positive i [] amounts = tt
leaves_from-positive i (p ∷ pool) [] = tt
leaves_from-positive i (p ∷ pool) (a ∷ amounts) = elim (Bool-cases (ltb 0 a)) [
  | inl e ↦ rw e (ground arith, leaves_from-positive (suc i) pool amounts)
  | inr e ↦ rw e (leaves_from-positive i pool amounts)
]

pub leaves_from-above :
    (minimum i : ℕ) (pool : List Weighted) (amounts : List ℕ)
    → every (leb minimum) amounts ≡ true
    → All (λ l. minimum ≤ l.amount) (leaves_from i pool amounts)
unfolding leaves_from
leaves_from-above minimum i [] amounts h = tt
leaves_from-above minimum i (p ∷ pool) [] h = tt
leaves_from-above minimum i (p ∷ pool) (a ∷ amounts) h = elim (Bool-cases (ltb 0 a)) [
  | inl e ↦ rw e (ground arith, leaves_from-above minimum (suc i) pool amounts (ground arith))
  | inr e ↦ rw e (leaves_from-above minimum i pool amounts (ground arith))
]

pub leaves_from-Picked :
    (i : ℕ) (pool : List Weighted) (amounts : List ℕ)
    → Picked (recipients (leaves_from i pool amounts)) (owners pool)
unfolding leaves_from
leaves_from-Picked i [] amounts = done
leaves_from-Picked i (p ∷ pool) [] = Picked-nil (owners (p ∷ pool))
leaves_from-Picked i (p ∷ pool) (a ∷ amounts) = elim (Bool-cases (ltb 0 a)) [
  | inl e ↦ rw e (keep (leaves_from-Picked (suc i) pool amounts))
  | inr e ↦ rw e (skip (leaves_from-Picked i pool amounts))
]
