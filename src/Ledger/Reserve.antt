-- ===== src/Ledger/Reserve.antt =====
-- What settling a round's operations reserve does to the ledger.
use stonkfolio.Prelude.{ℕ, ◌+◌, ◌-◌, ◌≡◌, min, arith}
use stonkfolio.Prelude.Int.{ℤ, pos_part, neg_part}
use stonkfolio.Ledger.{Ledger, total, reconcile_reserve}

-- What a finished round's settlement promises, where `spent` may be negative (more came back in
-- refunds than was paid).
pub record IsSettled (reserve : ℕ) (spent : ℤ) (l : Ledger) : Type 0 where
  -- The reserve is released, and never more than the bucket holds.
  pub released :
      (reconcile_reserve reserve spent l).ledger.operations_lamports
      ≡ l.operations_lamports - reserve
  -- The other buckets are left alone.
  pub flywheel : (reconcile_reserve reserve spent l).ledger.flywheel_lamports ≡ l.flywheel_lamports
  pub buyback :
      (reconcile_reserve reserve spent l).ledger.platform_buyback_lamports
      ≡ l.platform_buyback_lamports
  pub revenue :
      (reconcile_reserve reserve spent l).ledger.platform_revenue_lamports
      ≡ l.platform_revenue_lamports
  -- The whole ledger falls by what was spent, as far as the released reserve and the basket go.
  pub charged :
      total (reconcile_reserve reserve spent l).ledger
        + min (pos_part spent) (min reserve l.operations_lamports + l.basket_lamports)
      ≡ total l + neg_part spent
  -- What is left over, or what the basket had to add, is reported.
  pub reported :
      (reconcile_reserve reserve spent l).ledger.basket_lamports
        + (reconcile_reserve reserve spent l).overrun
      ≡ l.basket_lamports + (reconcile_reserve reserve spent l).returned

-- Settling a finished round releases its reserve and takes what the round spent from the ledger, out
-- of the reserve first and then the basket; beyond these two nothing is taken, a negative spending is
-- added to the basket, and the other buckets keep their amounts.
pub reconcile_reserve-IsSettled : (reserve : ℕ) (spent : ℤ) (l : Ledger) → IsSettled reserve spent l
unfolding reconcile_reserve total
reconcile_reserve-IsSettled reserve spent l = ground arith
