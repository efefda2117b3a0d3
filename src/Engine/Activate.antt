-- ===== src/Engine/Activate.antt =====
-- How keeper/round/engine.ts funds and activates the assets of a committed round.
pub mod Kept
pub mod Safe
use Prim.Native.String.{String}
use text.Mathlib.Text.{◌==◌ as str_eq}
use stonkfolio.Prelude.{
  ℕ, suc, ◌+◌, ◌-◌, List, [], ◌∷◌, Option, none, some, Bool, true, false, ltb, leb, Result, err, ok,
  ◌>>=◌, if◌then◌else◌,
}
use stonkfolio.Send.{Rpc}
use stonkfolio.Ledger.{backoff_secs}
use stonkfolio.Store.{
  KeeperState, ActiveRound, RoundStatus, FundedAsset, FundStatus, credit_inventory,
}
use stonkfolio.Engine.{
  Answer, ask, Error, no_reservation, Client, RoundAssetAccount, Activation, RoundParams, Report,
  waiting, worked,
}
use stonkfolio.Engine.Costs.{charge_round}
use stonkfolio.Engine.Opening.{or_zero}
use stonkfolio.Engine.Finish.{or_empty, is_pending, release_reservation}
use stonkfolio.Engine.Commit.{PreparedAsset, PreparedRound, load_prepared}

-- `assets.find((a) => a.mint === mint)`
unfoldable pub find_asset : String → List FundedAsset → Option FundedAsset
find_asset mint [] = none
find_asset mint (a ∷ rest) =
    let later = find_asset mint rest in if str_eq a.mint mint then some a else later

-- A write to the asset that `find_asset` finds.
unfoldable pub put_asset : (mint : String) → FundedAsset → List FundedAsset → List FundedAsset
put_asset mint new [] = []
put_asset mint new (a ∷ rest) =
    let later = put_asset mint new rest in if str_eq a.mint mint then new ∷ rest else a ∷ later

-- A round under payment, and the state around it; a report ends the step, and `backing_off` is the
-- flag of the loop.
pub record Progress : Type 0 where
  pub round : ActiveRound
  pub state : KeeperState
  pub backing_off : Bool
  pub report : Option Report

abbrev pub update_asset : (mint : String) → FundedAsset → ActiveRound → ActiveRound
update_asset mint new round = record round {
  assets = some (put_asset mint new (or_empty round.assets));
}

-- What the transfer did not need goes back to the inventory.
unfoldable pub return_unused : FundedAsset → (used : ℕ) → KeeperState → KeeperState
unfolding credit_inventory
return_unused funded used s =
    if ltb used funded.fund_amount
    then credit_inventory funded.mint funded.token_program (funded.fund_amount - used) s
    else s

-- Default arguments of `backoffSecs`.
abbrev pub default_backoff : (attempts : ℕ) → ℕ
unfolding backoff_secs
default_backoff attempts = backoff_secs attempts 60 21_600

module _ (client : Client) (rpc : Rpc) (keeper : String) (params : RoundParams) where
  -- `isTransientError`, which matches regular expressions.
  module _ (is_transient : String → Bool) (now : ℕ) where
    -- After the last attempt the reservation goes back.
    unfoldable pub give_up : FundedAsset → Progress → Progress
    unfolding release_reservation
    give_up funded p =
        let (left, s) = release_reservation FundStatus.abandoned funded p.state in
        record p { round = update_asset funded.mint left p.round; state = s; report = some worked }

    -- The branches of a failed activation.
    unfoldable pub fail_activation : FundedAsset → (text : String) → Progress → Progress
    unfolding give_up
    fail_activation funded text p =
        let told = record funded { last_error = some text } in
        let counted = record told { attempts = suc funded.attempts } in
        if is_transient text
        then record p {
          round =
              update_asset funded.mint (record told { next_attempt_at = some (now + 30) }) p.round;
          report = some waiting;
        }
        else if leb params.max_activation_attempts counted.attempts
        then give_up counted p
        else record p {
          round =
              update_asset funded.mint
                (record counted { next_attempt_at = some (now + default_backoff counted.attempts) })
                p.round;
          report = some worked;
        }

    unfoldable pub activated : FundedAsset → Activation → Progress → Progress
    unfolding return_unused charge_round
    activated funded a p = record p {
      round =
          update_asset funded.mint (record funded { status = FundStatus.active })
            (charge_round rpc keeper a.signature p.round);
      state = return_unused funded a.transferred p.state;
      report = some worked;
    }

    -- Activated before a crash.
    unfoldable pub adopted : FundedAsset → (used : ℕ) → Progress → Progress
    unfolding return_unused
    adopted funded used p = record p {
      round = update_asset funded.mint (record funded { status = FundStatus.active }) p.round;
      state = return_unused funded used p.state;
    }

    is_active_account : Option RoundAssetAccount → Option ℕ
    is_active_account none = none
    is_active_account (some account) = if account.is_active then some account.funded else none

    try_activate : PreparedAsset → FundedAsset → Progress → Progress
    unfolding fail_activation activated
    try_activate asset funded p =
        if ltb now (or_zero funded.next_attempt_at)
        then record p { backing_off = true }
        else elim (client.open_fund_activate p.round.round_id asset.asset_idx funded.fund_amount) [
          | ok a ↦ activated funded a p
          | err text ↦ fail_activation funded text p
        ]

    activate_funded : PreparedAsset → FundedAsset → Progress → Result Error Progress
    unfolding try_activate adopted is_active_account
    activate_funded asset funded p = do
      account ← ask (client.fetch_round_asset p.round.round_id asset.asset_idx)
      elim (is_active_account account) [
        | none ↦ ok (try_activate asset funded p)
        | some net ↦ do
          used ← ask (client.gross_for_net asset.mint asset.token_program net)
          ok (adopted funded used p)
      ]

    -- One turn of the loop.
    unfoldable pub activate_asset : PreparedAsset → Progress → Result Error Progress
    unfolding activate_funded find_asset
    activate_asset asset p = elim (find_asset asset.mint (or_empty p.round.assets)) [
      | none ↦ err (no_reservation asset.mint)
      | some funded ↦ if is_pending funded then activate_funded asset funded p else ok p
    ]

    -- The loop, up to the first report.
    unfoldable pub activate_assets : List PreparedAsset → Progress → Result Error Progress
    unfolding activate_asset
    activate_assets [] p = ok p
    activate_assets (asset ∷ rest) p = do
      after ← activate_asset asset p
      elim after.report [ some said ↦ ok after | none ↦ activate_assets rest after ]

    -- After the loop: without a report and without an asset that backs off, the round is active.
    unfoldable pub end_activation : Progress → Progress
    end_activation p = elim p.report [
      | some said ↦ p
      | none ↦ if p.backing_off then p else record p {
        round = record p.round { status = RoundStatus.active };
        report = some worked;
      }
    ]

    unfoldable pub activate :
        (bundle : Answer PreparedRound) → ActiveRound → KeeperState → Result Error Progress
    unfolding load_prepared activate_assets end_activation
    activate bundle round s = do
      prepared ← load_prepared bundle round
      done ←
          activate_assets prepared.assets
            (record { round = round; state = s; backing_off = false; report = none })
      ok (end_activation done)
