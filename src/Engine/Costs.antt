-- ===== src/Engine/Costs.antt =====
-- The costs that keeper/round/engine.ts books and estimates.
use Prim.Native.String.{String}
use stonkfolio.Prelude.{ℕ, ◌+◌, ◌*◌, ◌/◌, Option, none, some, Result, err, ok, ◌>>=◌, if◌then◌else◌}
use stonkfolio.Prelude.Int.{ℤ, pos, pos_part, neg_part, ◌+ℤ◌, ◌-ℤ◌, ltb_ℤ}
use stonkfolio.Ledger.{Ledger, basket, debit}
use stonkfolio.Send.{Rpc, lamport_change, LamportChange}
use stonkfolio.Round.Trigger.{
  estimate_round_cost, estimate_transactions, lamports_per_signature, ceil_div,
}
use stonkfolio.Store.{ActiveRound}
use stonkfolio.Engine.{Answer, ask, Error, no_payouts_per_transaction, RoundParams}

-- `change ? -change.delta : otherwise`
abbrev pub cost_of : Option LamportChange → (otherwise : ℕ) → ℤ
cost_of none otherwise = pos otherwise
cost_of (some change) otherwise = pos 0 -ℤ change.delta

-- A cost above 0 is debited from the basket, and any other is added to it.
unfoldable pub book_basket : ℤ → Ledger → Ledger
unfolding debit
book_basket cost ledger =
    if ltb_ℤ (pos 0) cost
    then (debit basket (pos_part cost) ledger).0
    else record ledger { basket_lamports = ledger.basket_lamports + neg_part cost }

module _ (rpc : Rpc) (keeper : String) where
  -- `chargeTx` for a round, in a step in which the node answers the lookup of the transaction.
  unfoldable pub charge_round : Option String → ActiveRound → ActiveRound
  charge_round none round = round
  charge_round (some signature) round = record round {
    operations_spent_lamports =
        round.operations_spent_lamports
        +ℤ cost_of (lamport_change rpc signature keeper) lamports_per_signature;
  }

  -- `chargeTx` where no round owns the transaction.
  unfoldable pub charge_basket : Option String → Ledger → Ledger
  unfolding book_basket
  charge_basket none ledger = ledger
  charge_basket (some signature) ledger =
      book_basket (cost_of (lamport_change rpc signature keeper) lamports_per_signature) ledger

abbrev pub round_header_space : ℕ
round_header_space = 158

abbrev pub round_intent_space : ℕ
round_intent_space = 226

abbrev pub round_asset_space : (leaves : ℕ) → ℕ
round_asset_space leaves = 243 + ceil_div leaves 8

abbrev pub vault_space_estimate : ℕ
vault_space_estimate = 200

unfoldable pub transactions_of : (payouts assets : ℕ) → Result Error ℕ
unfolding estimate_transactions
transactions_of payouts assets = elim (estimate_transactions payouts 1 assets) [
  | ok n ↦ ok n
  | err e ↦ err no_payouts_per_transaction
]

-- The rent of an account of so many bytes, as the node gives it.
module _ (rent : ℕ → Answer ℕ) (params : RoundParams) where
  unfoldable pub estimate_cost : (pot_lamports eligible : ℕ) → Result Error ℕ
  unfolding estimate_round_cost transactions_of
  estimate_cost pot eligible = do
    let payouts = eligible * params.expected_basket_size
    account_rent ← ask (rent 165)
    transactions ← transactions_of payouts params.expected_basket_size
    ok (
        estimate_round_cost (record {
          new_token_accounts = payouts;
          token_account_rent_lamports = account_rent;
          transactions = transactions;
          signatures_per_transaction = 1;
          priority_fee_lamports_per_transaction = params.priority_fee_lamports_per_tx;
          swap_impact_lamports = pot * params.swap_impact_bps / 10_000;
        }))

  unfoldable pub estimate_operating_cost : (eligible assets : ℕ) → Result Error ℕ
  unfolding estimate_round_cost transactions_of
  estimate_operating_cost eligible assets = do
    let payouts = eligible * assets
    account_rent ← ask (rent 165)
    transactions ← transactions_of payouts assets
    let per_round = estimate_round_cost (record {
      new_token_accounts = payouts;
      token_account_rent_lamports = account_rent;
      transactions = transactions;
      signatures_per_transaction = 1;
      priority_fee_lamports_per_transaction = params.priority_fee_lamports_per_tx;
      swap_impact_lamports = 0;
    })
    header ← ask (rent round_header_space)
    intent ← ask (rent round_intent_space)
    asset ← ask (rent (round_asset_space eligible))
    vault ← ask (rent vault_space_estimate)
    ok (per_round + (header + intent + assets * (asset + vault)))
