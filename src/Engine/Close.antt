-- ===== src/Engine/Close.antt =====
-- How keeper/round/engine.ts closes the assets of expired rounds.
pub mod Safe
use Prim.Native.String.{String}
use stonkfolio.Prelude.{
  ℕ, zero, suc, ◌+◌, List, [], ◌∷◌, Option, none, some, ltb, leb, Result, err, ok, ◌>>=◌,
  if◌then◌else◌,
}
use stonkfolio.Send.{Rpc}
use stonkfolio.Store.{KeeperState, ExpiringRound, ExpiringAsset, credit_inventory}
use stonkfolio.Engine.{ask, Error, Client, Report, worked, mentions}
use stonkfolio.Engine.Costs.{charge_basket}
use stonkfolio.Engine.Opening.{or_zero}
use stonkfolio.Engine.Activate.{default_backoff}

-- `assets.find((a) => (a.nextAttemptAt ?? 0) <= now)`
unfoldable pub due_asset : (now : ℕ) → List ExpiringAsset → Option ExpiringAsset
due_asset now [] = none
due_asset now (a ∷ rest) =
    let later = due_asset now rest in if leb (or_zero a.next_attempt_at) now then some a else later

unfoldable pub due_close : (now : ℕ) → List ExpiringRound → Option (ExpiringRound × ExpiringAsset)
unfolding due_asset
due_close now [] = none
due_close now (round ∷ rest) =
    let later = due_close now rest in
    if ltb now round.expiry_ts
    then later
    else elim (due_asset now round.assets) [ some asset ↦ some (round, asset) | none ↦ later ]

-- A write to the asset that `due_asset` finds: `none` removes it.
unfoldable pub put_due_asset :
    (now : ℕ) → Option ExpiringAsset → List ExpiringAsset → List ExpiringAsset
put_due_asset now new [] = []
put_due_asset now new (a ∷ rest) =
    let later = put_due_asset now new rest in
    if leb (or_zero a.next_attempt_at) now
    then elim new [ none ↦ rest | some b ↦ b ∷ rest ]
    else a ∷ later

-- A round that has assets left stays.
keep_round : ExpiringRound → List ExpiringRound → List ExpiringRound
keep_round round rest = elim round.assets [ [] ↦ rest | a ∷ more ↦ round ∷ rest ]

-- The same write in the list of rounds, where `due_close` found it.
unfoldable pub put_due : (now : ℕ) → Option ExpiringAsset → List ExpiringRound → List ExpiringRound
unfolding put_due_asset due_asset keep_round
put_due now new [] = []
put_due now new (round ∷ rest) =
    let later = put_due now new rest in
    if ltb now round.expiry_ts then round ∷ later else elim (due_asset now round.assets) [
      | none ↦ round ∷ later
      | some found ↦ keep_round (record round { assets = put_due_asset now new round.assets }) rest
    ]

module _ (client : Client) (rpc : Rpc) (keeper : String) (now : ℕ) where
  -- A failing close backs off.
  deferred : ExpiringAsset → (text : String) → ExpiringAsset
  deferred asset text = record asset {
    attempts = suc asset.attempts;
    next_attempt_at = some (
        now
        + (if mentions "RoundNotExpired" text then 30 else default_backoff (suc asset.attempts)));
  }

  -- What the vault still held, net of the transfer fee, goes to the inventory.
  credit_remaining : ExpiringAsset → (remaining : ℕ) → KeeperState → Result Error KeeperState
  unfolding credit_inventory
  credit_remaining asset zero s = ok s
  credit_remaining asset (suc remaining) s = do
    net ← ask (client.net_after_transfer_fee asset.mint asset.token_program (suc remaining))
    ok (credit_inventory asset.mint asset.token_program net s)

  removed : KeeperState → KeeperState
  unfolding put_due
  removed s = record s { expiring = put_due now none s.expiring }

  close_account : (round_id : ℕ) → ExpiringAsset → KeeperState → Result Error (KeeperState × Report)
  unfolding credit_remaining removed deferred put_due charge_basket
  close_account round_id asset s = do
    remaining ← ask (client.vault_balance round_id asset.asset_idx)
    elim (client.close_asset round_id asset.asset_idx) [
      | err text ↦
          ok (record s { expiring = put_due now (some (deferred asset text)) s.expiring }, worked)
      | ok signature ↦ do
        let charged = record s { ledger = charge_basket rpc keeper (some signature) s.ledger }
        credited ← credit_remaining asset remaining charged
        ok (removed credited, worked)
    ]

  unfoldable pub close_expired :
      (round_id : ℕ) → ExpiringAsset → KeeperState → Result Error (KeeperState × Report)
  unfolding close_account removed
  close_expired round_id asset s = do
    account ← ask (client.fetch_round_asset round_id asset.asset_idx)
    elim account [ none ↦ ok (removed s, worked) | some held ↦ close_account round_id asset s ]
