-- ===== src/Engine/Buy/Safe.antt =====
-- Well-formed states of keeper/round/engine.ts under choosing the basket and starting a buy.
use stonkfolio.Prelude.{ℕ, ◌==◌, List, [], leb, length, Bool-cases, inl, inr}
use stonkfolio.Store.{KeeperState, ActiveRound, PurchaseRecord}
use stonkfolio.Engine.{Answer, RoundParams, with_round}
use stonkfolio.Engine.Safe.{
  IsWellFormed, Safe, Kept, Safe-return, Safe-lift, Safe-if, Safe-ask, Safe-save, Safe-bind,
  estimate_operating_cost-Returns,
}
use stonkfolio.Engine.Buy.{
  BasketCandidate, Attempt, unseen, per_coin_of, reserve_for, plan_purchases, select_basket,
  buy_one,
}

module _ (rent : ℕ → Answer ℕ) (params : RoundParams) where
  plan_purchases-IsWellFormed :
      (candidates : List BasketCandidate) (now reserve : ℕ) (round : ActiveRound) (s : KeeperState)
      → IsWellFormed (with_round round s)
      → IsWellFormed (plan_purchases rent params candidates now reserve round s)
  unfolding plan_purchases
  plan_purchases-IsWellFormed candidates now reserve round s w =
      elim (Bool-cases (
        leb (per_coin_of s.ledger.basket_lamports reserve (length candidates))
          params.swap_overhead_lamports)) [ inl e ↦ rw e w | inr e ↦ rw e w ]

  reserve_for-Safe :
      (eligible coins : ℕ) → Safe (λ reserve. Unit) (reserve_for rent params eligible coins)
  unfolding reserve_for
  reserve_for-Safe eligible coins =
      Safe-if (coins == 0) (Safe-return _ tt)
        (Safe-lift (estimate_operating_cost-Returns rent params eligible coins))

  pub select_basket-Safe :
      (selected : Answer (List BasketCandidate)) (now : ℕ) (round : ActiveRound) (s : KeeperState)
      → IsWellFormed (with_round round s)
      → Safe Kept (select_basket rent params selected now round s)
  unfolding select_basket
  select_basket-Safe selected now round s w = Safe-bind (Safe-ask selected) (λ listed e.
      Safe-bind (reserve_for-Safe round.latest_eligible_count (length (unseen [] listed)))
        (λ reserve u.
          Safe-return _ (plan_purchases-IsWellFormed (unseen [] listed) now reserve round s w)))

-- What a buy saves on its way is well-formed.
pub buy_one-Safe :
    (params : RoundParams) (a : Attempt) (p : PurchaseRecord) (purchases : List PurchaseRecord)
    (round : ActiveRound) (lamports : ℕ) (s : KeeperState)
    → IsWellFormed (with_round round s)
    → Safe (λ bought. Unit) (buy_one params a p purchases round lamports s)
unfolding buy_one
buy_one-Safe params a p purchases round lamports s w = Safe-bind (Safe-save _ w) (λ keyed u.
    Safe-bind (Safe-ask a.signing) (λ signing e. Safe-bind (Safe-save _ w) (λ funded v.
      Safe-bind (Safe-ask a.sent)
        (λ sent f. Safe-bind (Safe-save _ w) (λ swapped x. Safe-return _ tt)))))
