-- ===== src/Ledger/Debit.antt =====
-- What a debit takes, and that nothing else moves.
use stonkfolio.Prelude.{ℕ, ◌+◌, ◌-◌, ◌≡◌, ◌≢◌, min, arith, refl}
use stonkfolio.Ledger.{
  Ledger, Bucket, basket, flywheel, platform_buyback, platform_revenue, operations, amount_in,
  assign, total, debit,
}

amount_in-assign : (b : Bucket) (n : ℕ) (l : Ledger) → amount_in b (assign b n l) ≡ n
amount_in-assign basket n l = refl
amount_in-assign _ n l = refl

amount_in-assign_ne :
    (b c : Bucket) (n : ℕ) (l : Ledger) → c ≢ b → amount_in c (assign b n l) ≡ amount_in c l
amount_in-assign_ne basket basket n l h = absurd (h refl)
amount_in-assign_ne flywheel flywheel n l h = absurd (h refl)
amount_in-assign_ne platform_buyback platform_buyback n l h = absurd (h refl)
amount_in-assign_ne platform_revenue platform_revenue n l h = absurd (h refl)
amount_in-assign_ne operations operations n l h = absurd (h refl)
amount_in-assign_ne _ _ n l h = refl

pub total-assign :
    (b : Bucket) (n : ℕ) (l : Ledger) → total (assign b n l) + amount_in b l ≡ total l + n
unfolding total
total-assign basket n l = omega arith
total-assign _ n l = omega arith

-- A debit takes the asked amount or all that the bucket holds, whichever is less; the bucket falls by
-- what was taken, every other bucket keeps its amount, and so does the sum of ledger and taken.
pub debit_lem :
    (b : Bucket) (amount : ℕ) (l : Ledger)
    → ((debit b amount l).1 ≡ min amount (amount_in b l))
      × (amount_in b (debit b amount l).0 + (debit b amount l).1 ≡ amount_in b l)
      × ((c : Bucket) → c ≢ b → amount_in c (debit b amount l).0 ≡ amount_in c l)
      × (total (debit b amount l).0 + (debit b amount l).1 ≡ total l)
unfolding debit
debit_lem b amount l = (
  ground arith,
  rw amount_in-assign (ground arith),
  λ c h. amount_in-assign_ne b c _ l h,
  ground (arith, total-assign b (amount_in b l - amount) l, total-assign b 0 l),
)
