-- ===== src/Round/Trigger/Tests.antt =====
-- A round of a pot of ten million lamports, before and after a wait.
use stonkfolio.Prelude.{ℕ, ◌+◌, ◌*◌, ◌≤◌, ◌≡◌, refl, ok, arith}
use stonkfolio.Prelude.Int.{pos}
use stonkfolio.Round.Trigger.{TriggerInput, trigger, should_trigger_round, estimate_transactions}
use stonkfolio.Round.Trigger.Monotone.{should_trigger_round_monotone, estimate_transactions_least}

abbrev ready : TriggerInput
ready = record {
  pot_lamports = pos 10_000_000;
  estimated_cost_lamports = 100_000;
  max_cost_bps = 200;
  window_start_ts = 1_000;
  now_ts = 5_000;
  min_window_secs = 3_600;
}

abbrev waited : TriggerInput
waited = record ready { now_ts = 6_000; pot_lamports = pos 12_000_000 }

ready_triggers : should_trigger_round ready ≡ trigger
unfolding should_trigger_round
ready_triggers = refl

should_trigger_round_monotone_example : should_trigger_round waited ≡ trigger
should_trigger_round_monotone_example =
    should_trigger_round_monotone ready waited ready_triggers refl refl (omega arith) (omega arith)
      (omega arith) (omega arith)

estimate_transactions_least_example :
    (t : ℕ) × (estimate_transactions 25 6 4 ≡ ok (t + 4 + 3))
    × (25 ≤ t * 6)
    × ((fewer : ℕ) → 25 ≤ fewer * 6 → t ≤ fewer)
estimate_transactions_least_example = estimate_transactions_least 25 6 4 (omega arith)
