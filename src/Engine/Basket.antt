-- ===== src/Engine/Basket.antt =====
-- `buyBasket` of keeper/round/engine.ts: one coin of the basket at a time.
pub mod Safe
use Prim.Native.String.{String}
use stonkfolio.Prelude.{ℕ, ◌+◌, List, Option, none, some, leb, if◌then◌else◌}
use stonkfolio.Send.{Rpc}
use stonkfolio.Round.Policy.{RoundPolicy}
use stonkfolio.Store.{KeeperState, ActiveRound, PurchaseRecord}
use stonkfolio.Engine.{
  Answer, Client, RoundParams, Report, worked, Run, ◌>>=◌, return, lift, with_round,
}
use stonkfolio.Engine.Opening.{or_zero}
use stonkfolio.Engine.Buy.{
  BasketCandidate, Attempt, select_basket, next_pending, skip_pending, buy_one,
}
use stonkfolio.Engine.Settle.{Wallet, settle_purchase}
use stonkfolio.Engine.Reserve.{Mints, reserve_assets}

-- `round.seededAt ?? now`
or_now : Option ℕ → (now : ℕ) → ℕ
or_now none now = now
or_now (some at) now = at

module _ (client : Client) (rpc : Rpc) (keeper : String) (params : RoundParams) where
  module _ (attempt : Attempt) (wallet : Wallet) where
    -- The first purchase that is pending: settled where its wallet is known, and else skipped with all
    -- others once the time is over, or bought.
    advance_purchase :
        PurchaseRecord
        → List PurchaseRecord
        → (now : ℕ) → ActiveRound
        → KeeperState
        → Run (KeeperState × Report)
    unfolding settle_purchase skip_pending buy_one or_now
    advance_purchase p purchases now round s = elim p.swap_wallet_secret_hex [
      | some secret ↦ settle_purchase client rpc keeper wallet params purchases round secret p s
      | none ↦
          if leb (or_now round.seeded_at now + params.max_buy_phase_secs) now
          then return
              (with_round (record round { purchases = some (skip_pending purchases) }) s, worked)
          else (buy_one params attempt p purchases round (or_zero round.basket_budget_lamports) s
              >>= λ bought.
                  settle_purchase client rpc keeper wallet params purchases round
                    attempt.wallet_secret_hex bought s)
    ]

    -- The selected candidates and the accounts of the mints are asked for where they are needed.
    unfoldable pub buy_basket :
        (rent : ℕ → Answer ℕ)
        → RoundPolicy
        → Answer (List BasketCandidate)
        → Answer Mints
        → (now : ℕ) → ActiveRound
        → KeeperState
        → Run (KeeperState × Report)
    unfolding advance_purchase select_basket reserve_assets next_pending
    buy_basket rent policy selected mints now round s = elim round.purchases [
      | none ↦ select_basket rent params selected now round s
      | some purchases ↦ elim (next_pending purchases) [
        | some p ↦ advance_purchase p purchases now round s
        | none ↦ lift (reserve_assets client policy params mints round s)
      ]
    ]
