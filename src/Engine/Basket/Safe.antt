-- ===== src/Engine/Basket/Safe.antt =====
-- Well-formed states of keeper/round/engine.ts under buying the basket.
use Prim.Native.String.{String}
use stonkfolio.Prelude.{ℕ, ◌+◌, List, leb}
use stonkfolio.Send.{Rpc}
use stonkfolio.Round.Policy.{RoundPolicy}
use stonkfolio.Store.{KeeperState, ActiveRound, PurchaseRecord}
use stonkfolio.Engine.{Answer, Client, RoundParams, with_round}
use stonkfolio.Engine.Opening.{or_zero}
use stonkfolio.Engine.Buy.{BasketCandidate, Attempt, next_pending}
use stonkfolio.Engine.Buy.Safe.{select_basket-Safe, buy_one-Safe}
use stonkfolio.Engine.Settle.{Wallet}
use stonkfolio.Engine.Settle.Safe.{settle_purchase-Safe}
use stonkfolio.Engine.Reserve.{Mints}
use stonkfolio.Engine.Reserve.Safe.{reserve_assets-Returns}
use stonkfolio.Engine.Safe.{
  IsWellFormed, Safe, Kept, Safe-return, Safe-lift, Safe-if, Safe-option, Safe-bind,
}
use stonkfolio.Engine.Basket.{or_now, advance_purchase, buy_basket}

module _ (client : Client) (rpc : Rpc) (keeper : String) (params : RoundParams) where
  module _ (attempt : Attempt) (wallet : Wallet) where
    advance_purchase-Safe :
        (p : PurchaseRecord) (purchases : List PurchaseRecord) (now : ℕ) (round : ActiveRound)
        (s : KeeperState)
        → IsWellFormed (with_round round s)
        → Safe Kept
            (advance_purchase client rpc keeper params attempt wallet p purchases now round s)
    unfolding advance_purchase
    advance_purchase-Safe p purchases now round s w =
        Safe-option p.swap_wallet_secret_hex
          (Safe-if (leb (or_now round.seeded_at now + params.max_buy_phase_secs) now)
            (Safe-return _ w)
            (Safe-bind
              (buy_one-Safe params attempt p purchases round (or_zero round.basket_budget_lamports)
                s w)
              (λ bought u.
                settle_purchase-Safe client rpc keeper wallet params purchases round
                  attempt.wallet_secret_hex bought s w)))
          (λ secret.
            settle_purchase-Safe client rpc keeper wallet params purchases round secret p s w)

    -- Buying the basket keeps the state well-formed.
    pub buy_basket-Safe :
        (rent : ℕ → Answer ℕ) (policy : RoundPolicy) (selected : Answer (List BasketCandidate))
        (mints : Answer Mints) (now : ℕ) (round : ActiveRound) (s : KeeperState)
        → IsWellFormed (with_round round s)
        → Safe Kept (
            buy_basket client rpc keeper params attempt wallet rent policy selected mints now round
              s)
    unfolding buy_basket
    buy_basket-Safe rent policy selected mints now round s w =
        Safe-option round.purchases (select_basket-Safe rent params selected now round s w)
          (λ purchases.
            Safe-option (next_pending purchases)
              (Safe-lift (reserve_assets-Returns client policy params mints round s w))
              (λ p. advance_purchase-Safe p purchases now round s w))
