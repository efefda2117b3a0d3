-- ===== src/Engine/Collect.antt =====
-- How keeper/round/engine.ts collects the snapshots of a round and closes its window.
pub mod Safe
pub mod Window
use Prim.Native.String.{String}
use text.Mathlib.Text.{◌==◌ as str_eq}
use stonkfolio.Prelude.{
  ℕ, ◌+◌, suc, min, List, [], ◌∷◌, ◌++◌, map, length, Option, none, some, Bool, true, false, not,
  ◌||◌, ltb, leb, ◌==◌, Result, err, ok, if◌then◌else◌,
}
use stonkfolio.Prelude.Int.{ℤ, pos}
use stonkfolio.Prelude.Maps.{has}
use stonkfolio.Send.{Rpc}
use stonkfolio.Round.Types.{Rational, TokenAccountRow, Snapshot, ExclusionEntry, Keys}
use stonkfolio.Round.Likely.{count_likely_eligible}
use stonkfolio.Round.Policy.{RoundPolicy, number_part}
use stonkfolio.Round.Trigger.{should_trigger_round, trigger}
use stonkfolio.Store.{KeeperState, ActiveRound, RoundStatus}
use stonkfolio.Engine.{
  Answer, ask, Error, thrown, other_commitment, close_did_not_land, foreign_chain, Report,
  collecting, waiting, worked, Client, IntentView, IntentStatus, RoundParams, mentions, Run, ◌>>=◌,
  ◌>>◌, return, lift, throw, confirm, recall, with_round,
}
use stonkfolio.Engine.Costs.{charge_round, estimate_cost}
use stonkfolio.Engine.Opening.{abandon_collecting}

pub record HolderIndex : Type 0 where
  pub slot : ℕ
  pub accounts : List TokenAccountRow

-- What a snapshot is made of: the holder index, the pool's price, the price of SOL where it can be
-- read, and the functions on hashes and secrets. `interval` is the jittered pause before the snapshot
-- of an index, for a mean.
pub record Sources : Type 0 where
  pub holders : Answer HolderIndex
  pub pool_price : Answer Rational
  pub sol_usd_micro : Option ℤ
  pub snapshot_hash : Snapshot → String
  pub extend_chain : (head hash : String) → String
  pub interval : (secret : String) (index mean : ℕ) → ℕ
  pub keys : Keys

-- `roundExclusions`: the keeper's own wallet is added where it is not listed.
unfoldable pub round_exclusions :
    List ExclusionEntry → (root_authority : String) → List ExclusionEntry
round_exclusions entries root =
    if has root (map (λ e. e.owner) entries)
    then entries
    else entries ++ record { owner = root; reason = "keeper wallet" } ∷ []

-- `new Set(texts).size`
unfoldable pub set_size : List String → ℕ
unfolding has
set_size [] = 0
set_size (x ∷ xs) = let rest = set_size xs in if has x xs then rest else suc rest

is_open : IntentStatus → Bool
is_open status = elim status [ IntentStatus.opened ↦ true | _ ↦ false ]

same_id : Option ℕ → ℕ → Bool
same_id none n = false
same_id (some m) n = m == n

unfoldable pub adopt_closed_window : ActiveRound → IntentView → Result Error ActiveRound
unfolding is_open
adopt_closed_window round intent =
    if is_open intent.status
    then err close_did_not_land
    else if not (str_eq intent.snapshot_chain_head_hex round.chain_head_hex)
        || not (intent.snapshot_count == length round.candidates)
    then err foreign_chain
    else ok (record round { window_end_slot = some intent.close_slot; status = RoundStatus.closed })

module _ (sources : Sources) (policy : RoundPolicy) (params : RoundParams) (keeper : String) where
  likely_eligible : List TokenAccountRow → Rational → Option ℕ
  unfolding round_exclusions
  likely_eligible accounts pool_price = elim sources.sol_usd_micro [
    | none ↦ none
    | some price ↦ some (
        count_likely_eligible sources.keys accounts pool_price price (record {
          min_eligible_usd_micro = policy.min_eligible_usd_micro;
          excluded = map (λ e. e.owner) (round_exclusions policy.static_exclusions keeper);
          exclude_off_curve = policy.exclude_off_curve_owners;
          cap = number_part policy.max_leaves_per_asset;
        }))
  ]

  -- Without a price the owners are counted, up to the limit on leaves.
  eligible_of : List TokenAccountRow → Rational → ℕ
  unfolding likely_eligible
  eligible_of accounts pool_price = elim (likely_eligible accounts pool_price) [
    | some n ↦ n
    | none ↦ min (set_size (map (λ a. a.owner) accounts)) (number_part policy.max_leaves_per_asset)
  ]

  snapshot_of : ActiveRound → (now : ℕ) → HolderIndex → Rational → Snapshot
  snapshot_of round now rows price = record {
    index = length round.candidates;
    slot = rows.slot;
    timestamp = now;
    pool_price = price;
    accounts = rows.accounts;
  }

  unfoldable pub add_snapshot : ActiveRound → (now : ℕ) → Snapshot → ActiveRound
  unfolding eligible_of
  add_snapshot round now snapshot =
      let hash = sources.snapshot_hash snapshot in
      record round {
        candidates =
            round.candidates
            ++ record { index = snapshot.index; slot = snapshot.slot; sha256 = hash } ∷ [];
        chain_head_hex = sources.extend_chain round.chain_head_hex hash;
        latest_eligible_count = eligible_of snapshot.accounts snapshot.pool_price;
        next_snapshot_at =
            now
            + sources.interval round.secret_hex (suc snapshot.index)
                params.mean_snapshot_interval_secs;
      }

  unfoldable pub take_snapshot : ActiveRound → (now : ℕ) → KeeperState → Run (KeeperState × Report)
  unfolding add_snapshot snapshot_of
  take_snapshot round now s = do
    rows ← lift (ask sources.holders)
    if ltb rows.slot round.window_start_slot then return (with_round round s, waiting) else do
      price ← lift (ask sources.pool_price)
      return (with_round (add_snapshot round now (snapshot_of round now rows price)) s, worked)

  module _ (client : Client) (rpc : Rpc) (rent : ℕ → Answer ℕ) where
    -- `err.match(TRANSIENT_CLOSE_ERROR)`
    is_transient_close : String → Bool
    is_transient_close text =
        mentions "WindowTooShort" text
        || mentions "PriceTooOld" text
        || mentions "PriceConfidenceTooWide" text

    adopt : ActiveRound → KeeperState → Option IntentView → Run (KeeperState × Report)
    unfolding adopt_closed_window
    adopt round s none = throw (thrown "null")
    adopt round s (some intent) = do
      closed ← lift (adopt_closed_window round intent)
      return (with_round closed s, worked)

    close_window : ActiveRound → KeeperState → Run (KeeperState × Report)
    unfolding adopt is_transient_close
    close_window round s =
        elim (client.close_window round.round_id round.chain_head_hex (length round.candidates)) [
          | err text ↦
              if is_transient_close text
              then return (with_round round s, waiting)
              else throw (thrown text)
          | ok signature ↦ do
            confirm none
            after ← lift (ask (client.fetch_intent 1 round.round_id))
            adopt (charge_round rpc keeper (some signature) round) s after
        ]

    -- A window that has waited too long is abandoned.
    wait_or_abandon : ActiveRound → (now : ℕ) → KeeperState → Run (KeeperState × Report)
    wait_or_abandon round now s =
        if leb (round.window_start_ts + params.max_window_secs) now
        then abandon_collecting client rpc keeper round false s
        else return (with_round round s, waiting)

    try_close : ActiveRound → (now : ℕ) → KeeperState → Run (KeeperState × Report)
    unfolding close_window wait_or_abandon should_trigger_round estimate_cost
    try_close round now s = do
      let pot = s.ledger.basket_lamports
      cost ← lift (estimate_cost rent params pot round.latest_eligible_count)
      let decision = should_trigger_round (record {
        pot_lamports = pos pot;
        estimated_cost_lamports = cost;
        max_cost_bps = params.round_cost_max_bps;
        window_start_ts = round.window_start_ts;
        now_ts = now;
        min_window_secs = number_part policy.min_window_secs;
      })
      elim decision [ trigger ↦ close_window round s | _ ↦ wait_or_abandon round now s ]

    -- From the point where the round's intent is known to be open.
    unfoldable pub collect_open : ActiveRound → (now : ℕ) → KeeperState → Run (KeeperState × Report)
    unfolding take_snapshot try_close
    collect_open round now s =
        if leb round.next_snapshot_at now
        then take_snapshot round now s
        else if ltb (length round.candidates) (number_part policy.samples_per_round)
        then return (with_round round s, collecting)
        else if round.latest_eligible_count == 0
        then wait_or_abandon round now s
        else try_close round now s

    -- What the intent says of the round, the first time that this process sees it.
    check_intent :
        ActiveRound → (now : ℕ) → KeeperState → Option IntentView → Run (KeeperState × Report)
    unfolding collect_open
    check_intent round now s none = do
      signature ← lift (ask (client.open_round round.round_id round.commitment_hex))
      return (with_round (charge_round rpc keeper (some signature) round) s, worked)
    check_intent round now s (some intent) =
        let dated = record round {
          window_start_slot = intent.open_slot;
          window_start_ts = intent.open_ts;
        } in
        if not (str_eq intent.secret_commitment_hex round.commitment_hex)
        then throw other_commitment
        else if not (is_open intent.status)
        then adopt dated s (some intent)
        else do confirm (some round.round_id); collect_open dated now s

    unfoldable pub collect : ActiveRound → (now : ℕ) → KeeperState → Run (KeeperState × Report)
    unfolding check_intent same_id
    collect round now s = do
      confirmed ← recall
      if same_id confirmed round.round_id then collect_open round now s else do
        intent ← lift (ask (client.fetch_intent 0 round.round_id))
        check_intent round now s intent
