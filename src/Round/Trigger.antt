-- ===== src/Round/Trigger.antt =====
-- keeper/round/trigger.ts: when a round starts.
pub mod Monotone
mod Tests
use stonkfolio.Prelude.{
  ℕ, ◌+◌, ◌-◌, ◌*◌, ◌/◌, Bool, true, false, Result, ok, err, ◌>>=◌, ◌>>◌, refuse, ltb,
  if◌then◌else◌,
}
use stonkfolio.Prelude.Int.{ℤ, pos, pos_part, sub_ℕ, ltb_ℤ, leb_ℤ}

abbrev pub lamports_per_signature : ℕ
lamports_per_signature = 5_000

pub record RoundCostInput : Type 0 where
  pub new_token_accounts : ℕ
  pub token_account_rent_lamports : ℕ
  pub transactions : ℕ
  pub signatures_per_transaction : ℕ
  pub priority_fee_lamports_per_transaction : ℕ
  pub swap_impact_lamports : ℕ

pub data Error : Type 0 where
  no_payouts_per_transaction : Error

-- `Math.ceil(a / b)` of whole numbers, for `b` above 0
abbrev pub ceil_div : ℕ → ℕ → ℕ
ceil_div a b = (a + (b - 1)) / b

unfoldable pub estimate_transactions : (payouts payouts_per_transaction assets : ℕ) → Result Error ℕ
estimate_transactions payouts payouts_per_transaction assets = do
  refuse (ltb payouts_per_transaction 1) no_payouts_per_transaction
  let payout_transactions = ceil_div payouts payouts_per_transaction
  let setup_transactions = 1 + assets + 2
  ok (payout_transactions + setup_transactions)

unfoldable pub estimate_round_cost : RoundCostInput → ℕ
estimate_round_cost input =
    let rent = input.new_token_accounts * input.token_account_rent_lamports in
    let per_transaction =
      input.signatures_per_transaction * lamports_per_signature
      + input.priority_fee_lamports_per_transaction in
    rent + input.transactions * per_transaction + input.swap_impact_lamports

pub record TriggerInput : Type 0 where
  pub pot_lamports : ℤ
  pub estimated_cost_lamports : ℕ
  pub max_cost_bps : ℕ
  pub window_start_ts : ℕ
  pub now_ts : ℕ
  pub min_window_secs : ℕ

-- The reasons are the texts that the code gives, by the numbers in them.
pub data TriggerDecision : Type 0 where
  trigger : TriggerDecision
  window_open : (elapsed : ℤ) (needs : ℕ) → TriggerDecision
  pot_empty : TriggerDecision
  too_costly : (cost bps : ℕ) (pot : ℤ) → TriggerDecision

unfoldable pub should_trigger_round : TriggerInput → TriggerDecision
should_trigger_round input =
    let elapsed = sub_ℕ input.now_ts input.window_start_ts in
    if ltb_ℤ elapsed (pos input.min_window_secs)
    then window_open elapsed input.min_window_secs
    else if leb_ℤ input.pot_lamports (pos 0)
    then pot_empty
    else if ltb (pos_part input.pot_lamports * input.max_cost_bps)
        (input.estimated_cost_lamports * 10_000)
    then too_costly input.estimated_cost_lamports input.max_cost_bps input.pot_lamports
    else trigger
