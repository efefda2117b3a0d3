-- ===== src/Ledger.antt =====
-- The fee buckets of keeper/state.ts and the ledger decisions of keeper/round/operations.ts. Bucket
-- amounts are lamports that are never negative; what a round has spent may be, since refunds count.
pub mod Debit
pub mod Reserve
pub mod Tests
pub mod Backoff
use stonkfolio.Prelude.{
  ℕ, zero, suc, ◌+◌, ◌-◌, ◌*◌, ◌^◌, Bool, true, false, ltb, leb, ◌==◌, if◌then◌else◌, min, max,
  Option, none, some,
}
use stonkfolio.Prelude.Int.{ℤ, pos, negsuc, pos_part, neg_part, leb_ℤ}

pub record Ledger : Type 0 where
  pub basket_lamports : ℕ
  pub flywheel_lamports : ℕ
  pub platform_buyback_lamports : ℕ
  pub platform_revenue_lamports : ℕ
  pub operations_lamports : ℕ

-- `keyof Ledger`
pub data Bucket : Type 0 where
  basket flywheel platform_buyback platform_revenue operations : Bucket

unfoldable pub empty_ledger : Ledger
empty_ledger = record {
  basket_lamports = 0;
  flywheel_lamports = 0;
  platform_buyback_lamports = 0;
  platform_revenue_lamports = 0;
  operations_lamports = 0;
}

-- `ledger[bucket]`
abbrev pub amount_in : Bucket → Ledger → ℕ
amount_in basket l = l.basket_lamports
amount_in flywheel l = l.flywheel_lamports
amount_in platform_buyback l = l.platform_buyback_lamports
amount_in platform_revenue l = l.platform_revenue_lamports
amount_in operations l = l.operations_lamports

-- `ledger[bucket] = amount`
abbrev pub assign : Bucket → ℕ → Ledger → Ledger
assign basket n l = record l { basket_lamports = n }
assign flywheel n l = record l { flywheel_lamports = n }
assign platform_buyback n l = record l { platform_buyback_lamports = n }
assign platform_revenue n l = record l { platform_revenue_lamports = n }
assign operations n l = record l { operations_lamports = n }

-- All that the ledger holds.
unfoldable pub total : Ledger → ℕ
total l =
    l.basket_lamports + l.flywheel_lamports + l.platform_buyback_lamports
    + l.platform_revenue_lamports + l.operations_lamports

-- The ledger after it, and what was taken.
unfoldable pub debit : Bucket → (amount : ℕ) → Ledger → Ledger × ℕ
debit bucket amount ledger =
    let taken = if ltb amount (amount_in bucket ledger) then amount else amount_in bucket ledger in
    (assign bucket (amount_in bucket ledger - taken) ledger, taken)

pub record Settled : Type 0 where
  pub ledger : Ledger
  pub returned : ℕ
  pub overrun : ℕ

-- `held - spent` where `spent <= held`, and `spent - held` where it is not.
unused : (held : ℕ) → ℤ → ℕ
unused held spent = held + neg_part spent - pos_part spent

excess : (held : ℕ) → ℤ → ℕ
excess held spent = pos_part spent - held

unfoldable pub reconcile_reserve : (reserve : ℕ) (spent : ℤ) → Ledger → Settled
unfolding debit unused excess
reconcile_reserve reserve spent ledger =
    let (charged, held) = debit operations reserve ledger in
    if leb_ℤ spent (pos held)
    then record {
      ledger = record charged { basket_lamports = charged.basket_lamports + unused held spent };
      returned = unused held spent;
      overrun = 0;
    }
    else let (after, overrun) = debit basket (excess held spent) charged in
      record { ledger = after; returned = 0; overrun = overrun }

-- `Math.min(baseSecs * 2 ** Math.max(0, attempts - 1), maxSecs)`
unfoldable pub backoff_secs : (attempts base_secs max_secs : ℕ) → ℕ
backoff_secs attempts base_secs max_secs = min (base_secs * 2 ^ (attempts - 1)) max_secs

pub record Price : Type 0 where
  pub lamports : ℕ
  pub tokens : ℕ

unfoldable pub should_auto_push :
    (account_exists : Bool) (amount : ℕ) (price : Option Price)
    (rent_lamports min_rent_multiple : ℕ)
    → Bool
should_auto_push true amount price rent multiple = true
should_auto_push false amount none rent multiple = false
should_auto_push false amount (some p) rent multiple =
    if p.tokens == 0 then false else leb (rent * multiple * p.tokens) (amount * p.lamports)
