-- ===== src/Engine/Opening.antt =====
-- How keeper/round/engine.ts opens a round, abandons one that is collecting, and abandons one on chain
-- whose secret is lost.
pub mod Safe
use Prim.Native.String.{String}
use stonkfolio.Prelude.{ℕ, [], Option, none, some, Bool, true, false, err, ok, if◌then◌else◌}
use stonkfolio.Prelude.Int.{pos}
use stonkfolio.Ledger.{reconcile_reserve}
use stonkfolio.Send.{Rpc}
use stonkfolio.Store.{KeeperState, ActiveRound, RoundStatus}
use stonkfolio.Engine.{
  ask, thrown, Report, waiting, worked, Client, IntentView, mentions, Run, ◌>>=◌, ◌>>◌, return,
  lift, throw, save, confirm, with_round,
}
use stonkfolio.Engine.Costs.{charge_round, charge_basket}

-- `value ?? 0n`
abbrev pub or_zero : Option ℕ → ℕ
or_zero none = 0
or_zero (some n) = n

-- The random secret of a round, and what is derived from it: its commitment, and the head of an empty
-- snapshot chain.
pub record Secrets : Type 0 where
  pub random : String
  pub commitment : String → String
  pub genesis : (round_id : ℕ) → String

abbrev pub fresh_round : Secrets → (round_id now : ℕ) → ActiveRound
fresh_round secrets round_id now = record {
  round_id = round_id;
  status = RoundStatus.opened;
  secret_hex = secrets.random;
  commitment_hex = secrets.commitment secrets.random;
  window_start_slot = 0;
  window_start_ts = now;
  window_end_slot = none;
  next_snapshot_at = now;
  candidates = [];
  chain_head_hex = secrets.genesis round_id;
  latest_eligible_count = 0;
  seeded_at = none;
  basket_budget_lamports = none;
  operations_reserve_lamports = none;
  operations_spent_lamports = pos 0;
  purchases = none;
  assets = none;
  manifest_hash_hex = none;
  assets_root_hex = none;
  commit_signature = none;
  expiry_ts = none;
  failures = [];
}

module _ (client : Client) (rpc : Rpc) (keeper : String) where
  abandon_orphan : IntentView → KeeperState → Run (KeeperState × Report)
  abandon_orphan intent s = elim (client.abandon_round intent.round_id) [
    | ok signature ↦
        return (record s { ledger = charge_basket rpc keeper (some signature) s.ledger }, worked)
    | err text ↦ if mentions "CannotAbandon" text then return (s, waiting) else throw (thrown text)
  ]

  -- Saved before the commitment is sent.
  start_round : ActiveRound → KeeperState → Run (KeeperState × Report)
  start_round round s = do
    save (with_round round s)
    signature ← lift (ask (client.open_round round.round_id round.commitment_hex))
    return (with_round (charge_round rpc keeper (some signature) round) s, worked)

  unfoldable pub open_round : Secrets → (now : ℕ) → KeeperState → Run (KeeperState × Report)
  unfolding abandon_orphan start_round charge_basket
  open_round secrets now s = do
    ensured ← lift (ask client.ensure_distributor)
    let charged = record s { ledger = charge_basket rpc keeper ensured s.ledger }
    round_id ← lift (ask client.next_round_id)
    orphan ← lift (ask (client.fetch_intent 0 round_id))
    elim orphan [
      | some intent ↦ abandon_orphan intent charged
      | none ↦ start_round (fresh_round secrets round_id now) charged
    ]

  -- The round with the cost of abandoning it, where that is still to be done.
  charge_abandon : ActiveRound → (already_abandoned : Bool) → Run ActiveRound
  charge_abandon round true = return round
  charge_abandon round false = do
    signature ← lift (ask (client.abandon_round round.round_id))
    return (charge_round rpc keeper (some signature) round)

  unfoldable pub abandon_collecting :
      ActiveRound → (already_abandoned : Bool) → KeeperState → Run (KeeperState × Report)
  unfolding charge_abandon reconcile_reserve
  abandon_collecting round already s = do
    charged ← charge_abandon round already
    confirm none
    let settled =
        reconcile_reserve (or_zero charged.operations_reserve_lamports)
          charged.operations_spent_lamports s.ledger
    return (record s { ledger = settled.ledger; round = none }, worked)
