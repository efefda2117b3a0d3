-- ===== src/Round/Asset/Trim.antt =====
-- The cut down to the largest holders.
use Prim.Native.String.{String}
use text.Mathlib.Text.{◌==◌ as str_eq}
use text.Mathlib.TextEquality.{eq_iff}
use stonkfolio.Prelude.{
  ℕ, suc, ◌+◌, ◌≤◌, ◌≡◌, refl, false, List, [], ◌∷◌, map, length, length-map, filter, take,
  length-take, ltb, if◌then◌else◌, arith, Bool-cases, inl, inr,
}
use stonkfolio.Prelude.Maps.{has}
use stonkfolio.Prelude.Sort.{sort_by}
use stonkfolio.Prelude.Picked.{Picked, Picked-refl, Picked-filter, Distinct}
use stonkfolio.Round.Types.{Keys}
use stonkfolio.Round.Remainder.{Weighted}
use stonkfolio.Round.Asset.{set_of, truncate, by_weight}
use stonkfolio.Round.Asset.Leaves.{owners}

length-set_of : (os : List String) → length (set_of os) ≤ length os
unfolding set_of
length-set_of [] = omega arith
length-set_of (o ∷ os) = ground (arith, length-set_of os)

named : String → List Weighted → ℕ
named k [] = 0
named k (p ∷ pool) = if str_eq k p.owner then suc (named k pool) else named k pool

named_absent : (k : String) (pool : List Weighted) → has k (owners pool) ≡ false → named k pool ≡ 0
unfolding named has
named_absent k [] h = refl
named_absent k (p ∷ pool) h =
    ground (arith, eq_iff k p.owner, eq_iff p.owner k, named_absent k pool)

-- In a pool without repetition a name stands at most once.
named-le : (k : String) (pool : List Weighted) → Distinct (owners pool) → named k pool ≤ 1
unfolding named Distinct
named-le k [] d = omega arith
named-le k (p ∷ pool) d = elim (Bool-cases (str_eq k p.owner)) [
  | inl e ↦
      let same : p.owner ≡ k = ground (arith, eq_iff k p.owner) in
      rw e (omega (arith, named_absent k pool (rw same at d.0)))
  | inr e ↦ rw e (named-le k pool d.1)
]

among : List String → List Weighted → List Weighted
among kept pool = filter (λ p. has p.owner kept) pool

among-nil : (pool : List Weighted) → length (among [] pool) ≡ 0
unfolding among has
among-nil [] = refl
among-nil (p ∷ pool) = among-nil pool

among-cons :
    (k : String) (kept : List String) (pool : List Weighted)
    → length (among (k ∷ kept) pool) ≤ named k pool + length (among kept pool)
unfolding among named has
among-cons k kept [] = omega arith
among-cons k kept (p ∷ pool) = ground (arith, among-cons k kept pool)

among-le :
    (kept : List String) (pool : List Weighted)
    → Distinct (owners pool)
    → length (among kept pool) ≤ length kept
among-le [] pool d = omega (arith, among-nil pool)
among-le (k ∷ kept) pool d =
    omega (arith, among-cons k kept pool, named-le k pool d, among-le kept pool d)

module _ (keys : Keys) (max_leaves : ℕ) (pool : List Weighted) where
  pub truncate-Picked : Picked (truncate keys max_leaves pool).pool pool
  unfolding truncate
  truncate-Picked = elim (Bool-cases (ltb max_leaves (length pool))) [
    | inl e ↦ rw e (Picked-filter _ pool)
    | inr e ↦ rw e (Picked-refl pool)
  ]

  -- No more wallets are left than leaves are allowed.
  pub length-truncate :
      Distinct (owners pool) → length (truncate keys max_leaves pool).pool ≤ max_leaves
  unfolding truncate among
  length-truncate d =
      let ranked = sort_by (by_weight keys) pool in
      let kept = set_of (map (λ (p : Weighted). p.owner) (take max_leaves ranked)) in
      elim (Bool-cases (ltb max_leaves (length pool))) [
        | inl e ↦ rw e (
            omega (
              arith,
              among-le kept pool d,
              length-set_of (map (λ (p : Weighted). p.owner) (take max_leaves ranked)),
              length-map (λ (p : Weighted). p.owner) (take max_leaves ranked),
              length-take max_leaves ranked,
            ))
        | inr e ↦ rw e (ground arith)
      ]
