-- ===== src/Round/Asset/Passes.antt =====
-- The passes that drop wallets below the minimum: what they keep, and when none is left below it.
use stonkfolio.Prelude.{
  ℕ, zero, suc, ◌+◌, ◌-◌, ◌≤◌, ◌<◌, ◌≡◌, ◌⊎◌, refl, Bool, true, false, List, [], ◌∷◌, length, every,
  leb, ◌==◌, ◌||◌, arith, Bool-cases, inl, inr, All,
}
use stonkfolio.Prelude.Sums.{sum}
use stonkfolio.Prelude.Picked.{
  Picked, done, skip, keep, Picked-nil, Picked-trans, Picked-length, Picked-All,
}
use stonkfolio.Round.Remainder.{Weighted, weights, largest_remainder}
use stonkfolio.Round.Remainder.Exact.{largest_remainder-exact}
use stonkfolio.Round.Asset.{keep_from, Passed, drop_passes}

-- Every wallet of the pool has held something.
abbrev pub IsHeavy : List Weighted → Type 0
IsHeavy pool = All (λ p. 0 < p.weight) pool

pub keep_from-Picked :
    (minimum : ℕ) (pool : List Weighted) (amounts : List ℕ)
    → Picked (keep_from minimum pool amounts) pool
unfolding keep_from
keep_from-Picked minimum [] amounts = done
keep_from-Picked minimum (p ∷ pool) [] = Picked-nil (p ∷ pool)
keep_from-Picked minimum (p ∷ pool) (a ∷ amounts) = elim (Bool-cases (leb minimum a)) [
  | inl e ↦ rw e (keep (keep_from-Picked minimum pool amounts))
  | inr e ↦ rw e (skip (keep_from-Picked minimum pool amounts))
]

keep_from-lt :
    (minimum : ℕ) (pool : List Weighted) (amounts : List ℕ)
    → length amounts ≡ length pool
    → every (leb minimum) amounts ≡ false
    → length (keep_from minimum pool amounts) < length pool
unfolding keep_from
keep_from-lt minimum [] [] h e = cc
keep_from-lt minimum [] (a ∷ amounts) h e = absurd (omega arith)
keep_from-lt minimum (p ∷ pool) [] h e = cc
keep_from-lt minimum (p ∷ pool) (a ∷ amounts) h e = elim (Bool-cases (leb minimum a)) [
  | inl k ↦ rw k (omega (arith, keep_from-lt minimum pool amounts (omega arith) (ground arith)))
  | inr k ↦ rw k (omega (arith, Picked-length (keep_from-Picked minimum pool amounts)))
]

pub sum-weights-pos :
    (pool : List Weighted) → IsHeavy pool → 0 < length pool → 0 < sum (weights pool)
unfolding sum
sum-weights-pos [] h l = absurd (omega arith)
sum-weights-pos (p ∷ pool) h l = omega (arith, h.0)

pub length-largest_remainder :
    (total : ℕ) (pool : List Weighted)
    → IsHeavy pool
    → length (largest_remainder total pool) ≡ length pool
unfolding largest_remainder sum
length-largest_remainder total [] h = refl
length-largest_remainder total (p ∷ pool) h =
    (largest_remainder-exact total (p ∷ pool) (sum-weights-pos (p ∷ pool) h (omega arith))).1

every-nil : (p : ℕ → Bool) (xs : List ℕ) → length xs ≡ 0 → every p xs ≡ true
every-nil p [] h = refl
every-nil p (x ∷ xs) h = absurd (omega arith)

-- What holds between the passes.
pub record IsPass (start : List Weighted) (allocatable : ℕ) (st : Passed) : Type 0 where
  pub shared_out : st.amounts ≡ largest_remainder allocatable st.pool
  pub picked : Picked st.pool start
  pub counted : st.dropped + length st.pool ≡ length start

module _ (start : List Weighted) (allocatable minimum : ℕ) where
  -- The passes keep the amounts the share of the remaining pool, and count whom they drop.
  pub drop_passes-IsPass :
      (passes : ℕ) (st : Passed)
      → IsPass start allocatable st
      → IsPass start allocatable (drop_passes passes allocatable minimum st)
  unfolding drop_passes
  drop_passes-IsPass zero st h = h
  drop_passes-IsPass (suc passes) st h =
      let next = keep_from minimum st.pool st.amounts in
      let picked = keep_from-Picked minimum st.pool st.amounts in
      elim (Bool-cases (length st.pool == 0 || every (leb minimum) st.amounts)) [
        | inl stop ↦ rw stop h
        | inr more ↦ rw more (
            drop_passes-IsPass passes _ (record {
              shared_out = refl;
              picked = Picked-trans h.picked picked;
              counted = omega (arith, h.counted, Picked-length picked);
            }))
      ]

  -- After the passes nobody is below the minimum, or every pass has dropped somebody.
  pub drop_passes-minimum :
      (passes : ℕ) (st : Passed)
      → IsHeavy start
      → IsPass start allocatable st
      → (every (leb minimum) (drop_passes passes allocatable minimum st).amounts ≡ true)
        ⊎ (st.dropped + passes ≤ (drop_passes passes allocatable minimum st).dropped)
  unfolding drop_passes
  drop_passes-minimum zero st w h = inr (omega arith)
  drop_passes-minimum (suc passes) st w h =
      let heavy = Picked-All (λ (p : Weighted). 0 < p.weight) h.picked w in
      let sized : length st.amounts ≡ length st.pool =
        rw h.shared_out (length-largest_remainder allocatable st.pool heavy) in
      elim (Bool-cases (every (leb minimum) st.amounts)) [
        | inl all_above ↦ ground arith
        | inr below ↦ elim (Bool-cases (length st.pool == 0)) [
          | inl empty ↦ absurd (ground (arith, every-nil (leb minimum) st.amounts))
          | inr filled ↦
              let next = keep_from minimum st.pool st.amounts in
              let picked = keep_from-Picked minimum st.pool st.amounts in
              let fewer = keep_from-lt minimum st.pool st.amounts sized below in
              let ih =
                drop_passes-minimum passes
                  (record {
                    pool = next;
                    amounts = largest_remainder allocatable next;
                    dropped = st.dropped + (length st.pool - length next);
                  })
                  w
                  (record {
                    shared_out = refl;
                    picked = Picked-trans h.picked picked;
                    counted = omega (arith, h.counted, Picked-length picked);
                  }) in
              rw (below, filled)
                (elim ih [ inl above ↦ inl above | inr spent ↦ inr (omega (arith, spent, fewer)) ])
        ]
      ]
