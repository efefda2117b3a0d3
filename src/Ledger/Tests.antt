-- ===== src/Ledger/Tests.antt =====
-- Runs of the ledger operations.
use stonkfolio.Prelude.{suc, ◌+◌, ◌*◌, ◌≤◌, ◌≡◌, ◌≢◌, refl, min}
use stonkfolio.Prelude.Int.{pos}
use stonkfolio.Ledger.{
  Ledger, Bucket, operations, amount_in, total, debit, reconcile_reserve, backoff_secs,
}
use stonkfolio.Ledger.Backoff.{backoff_secs_lem}
use stonkfolio.Ledger.Debit.{debit_lem}
use stonkfolio.Ledger.Reserve.{IsSettled, reconcile_reserve-IsSettled}

abbrev held : Ledger
held = record {
  basket_lamports = 70;
  flywheel_lamports = 5;
  platform_buyback_lamports = 6;
  platform_revenue_lamports = 7;
  operations_lamports = 30;
}

backoff_third : backoff_secs 3 60 21_600 ≡ 240
unfolding backoff_secs
backoff_third = refl

-- 45 lamports spent against a reserve of 30: the basket adds 15.
settle_overrun : (reconcile_reserve 30 (pos 45) held).ledger.basket_lamports ≡ 55
unfolding reconcile_reserve
settle_overrun = refl

debit_lem_example :
    ((debit operations 45 held).1 ≡ min 45 30)
    × (amount_in operations (debit operations 45 held).0 + (debit operations 45 held).1 ≡ 30)
    × ((c : Bucket) → c ≢ operations → amount_in c (debit operations 45 held).0 ≡ amount_in c held)
    × (total (debit operations 45 held).0 + (debit operations 45 held).1 ≡ total held)
debit_lem_example = debit_lem operations 45 held

reconcile_reserve-IsSettled_example : IsSettled 30 (pos 45) held
reconcile_reserve-IsSettled_example = reconcile_reserve-IsSettled 30 (pos 45) held

backoff_secs_lem_example :
    (backoff_secs 3 60 21_600 ≤ 21_600)
    × (backoff_secs 3 60 21_600 ≤ backoff_secs (3 + 2) 60 21_600)
    × (backoff_secs 0 60 21_600 ≡ min 60 21_600)
    × (backoff_secs 1 60 21_600 ≡ min 60 21_600)
    × (backoff_secs (suc (suc 3)) 60 21_600 ≡ min (2 * backoff_secs (suc 3) 60 21_600) 21_600)
backoff_secs_lem_example = backoff_secs_lem 3 2 60 21_600
