-- ===== src/Round/Trigger/Monotone.antt =====
-- A round that may start still may when it waits, when the pot grows or when it gets cheaper.
use native.Mathlib.Nat.{mul-le-mul, div-lt_iff_lt-mul, mod-lt, div-add-mod', suc-mul}
use stonkfolio.Prelude.{ℕ, suc, ◌+◌, ◌-◌, ◌*◌, ◌<◌, ◌≤◌, ◌≡◌, ok, arith}
use stonkfolio.Prelude.Int.{pos_part}
use stonkfolio.Round.Trigger.{
  TriggerInput, trigger, should_trigger_round, estimate_transactions, ceil_div,
}

-- What makes a round start.
record Ready (input : TriggerInput) : Type 0 where
  waited : input.window_start_ts + input.min_window_secs ≤ input.now_ts
  filled : 0 < pos_part input.pot_lamports
  cheap : input.estimated_cost_lamports * 10_000 ≤ pos_part input.pot_lamports * input.max_cost_bps

should_trigger_round-Ready :
    (input : TriggerInput) → should_trigger_round input ≡ trigger → Ready input
unfolding should_trigger_round
should_trigger_round-Ready input h = record {
  waited = ground arith;
  filled = ground arith;
  cheap = ground arith;
}

Ready-should_trigger_round :
    (input : TriggerInput) → Ready input → should_trigger_round input ≡ trigger
unfolding should_trigger_round
Ready-should_trigger_round input r = ground (arith, r.waited, r.filled, r.cheap)

-- A round that starts also starts later, with a larger pot, at a lower cost and with a higher limit on
-- the cost, for the same window.
pub should_trigger_round_monotone :
    (before after : TriggerInput)
    → should_trigger_round before ≡ trigger
    → after.window_start_ts ≡ before.window_start_ts
    → after.min_window_secs ≡ before.min_window_secs
    → before.now_ts ≤ after.now_ts
    → pos_part before.pot_lamports ≤ pos_part after.pot_lamports
    → after.estimated_cost_lamports ≤ before.estimated_cost_lamports
    → before.max_cost_bps ≤ after.max_cost_bps
    → should_trigger_round after ≡ trigger
should_trigger_round_monotone before after h start window later larger cheaper higher =
    let ready = should_trigger_round-Ready before h in
    let product = mul-le-mul larger higher in
    Ready-should_trigger_round after (record {
      waited = omega (arith, ready.waited);
      filled = omega (arith, ready.filled);
      cheap = omega (arith, ready.cheap, product);
    })

-- Where a transaction takes at least one payout, the estimate is returned: three transactions, one for
-- each asset, and the least number of transactions that takes all payouts.
pub estimate_transactions_least :
    (payouts per assets : ℕ)
    → 0 < per
    → (t : ℕ) × (estimate_transactions payouts per assets ≡ ok (t + assets + 3))
      × (payouts ≤ t * per)
      × ((fewer : ℕ) → payouts ≤ fewer * per → t ≤ fewer)
unfolding estimate_transactions
estimate_transactions_least payouts per assets h = (
  ceil_div payouts per,
  ground arith,
  omega (arith, div-add-mod' (payouts + (per - 1)) per, mod-lt (payouts + (per - 1)) h),
  λ fewer enough.
      let below =
        (div-lt_iff_lt-mul {x = payouts + (per - 1)} {y = suc fewer} h).1
          (omega (arith, enough, suc-mul fewer per)) in
      omega (arith, below),
)
