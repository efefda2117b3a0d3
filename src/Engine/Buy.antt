-- ===== src/Engine/Buy.antt =====
-- How keeper/round/engine.ts chooses the basket of a round and starts its buys.
pub mod Safe
pub mod Budget
use Prim.Native.String.{String}
use stonkfolio.Prelude.{
  ℕ, ◌+◌, ◌-◌, ◌/◌, List, [], ◌∷◌, map, length, Option, none, some, Bool, true, false, leb, ltb,
  ◌==◌, err, ok, if◌then◌else◌,
}
use stonkfolio.Prelude.Maps.{has}
use stonkfolio.Ledger.{Ledger}
use stonkfolio.Store.{KeeperState, ActiveRound, PurchaseRecord, PurchaseStatus}
use stonkfolio.Engine.{
  Answer, ask, Report, worked, RoundParams, Run, ◌>>=◌, ◌>>◌, return, lift, save, with_round,
}
use stonkfolio.Engine.Costs.{estimate_operating_cost}

pub record BasketCandidate : Type 0 where
  pub mint : String
  pub token_program : String

pub data SwapResult : Type 0 where
  signed : (signature : String) → SwapResult
  skipped : (reason : String) → SwapResult

-- The candidates without repeated mints, after those already seen.
unfoldable pub unseen : List String → List BasketCandidate → List BasketCandidate
unfolding has
unseen seen [] = []
unseen seen (c ∷ rest) =
    if has c.mint seen then unseen seen rest else c ∷ unseen (c.mint ∷ seen) rest

abbrev pub fresh_purchase : BasketCandidate → PurchaseRecord
fresh_purchase c = record {
  mint = c.mint;
  token_program = c.token_program;
  status = PurchaseStatus.pending;
  lamports_spent = 0;
  received = 0;
  signatures = [];
  buyer = none;
  attempts = 0;
  last_error = none;
  reason = none;
  swap_wallet_secret_hex = none;
  funding = none;
  sweep = none;
  sweep_signatures = [];
  output_checks = 0;
}

-- `(pot - reserve) / BigInt(candidates.length)` where there is something to divide.
unfoldable pub per_coin_of : (pot reserve coins : ℕ) → ℕ
per_coin_of pot reserve coins =
    if coins == 0 then 0 else if ltb reserve pot then (pot - reserve) / coins else 0

-- The reserve moves from the basket to the operations bucket.
unfoldable pub set_aside : (reserve : ℕ) → Ledger → Ledger
set_aside reserve ledger = record ledger {
  basket_lamports = ledger.basket_lamports - reserve;
  operations_lamports = ledger.operations_lamports + reserve;
}

module _ (rent : ℕ → Answer ℕ) (params : RoundParams) where
  -- The round costs to set aside; without candidates nothing is.
  reserve_for : (eligible coins : ℕ) → Run ℕ
  unfolding estimate_operating_cost
  reserve_for eligible coins =
      if coins == 0 then return 0 else lift (estimate_operating_cost rent params eligible coins)

  unfoldable pub plan_purchases :
      List BasketCandidate → (now reserve : ℕ) → ActiveRound → KeeperState → KeeperState
  unfolding per_coin_of set_aside
  plan_purchases candidates now reserve round s =
      let per_coin = per_coin_of s.ledger.basket_lamports reserve (length candidates) in
      if leb per_coin params.swap_overhead_lamports
      then with_round (record round { seeded_at = some now; purchases = some [] }) s
      else with_round
          (record round {
            seeded_at = some now;
            operations_reserve_lamports = some reserve;
            basket_budget_lamports = some per_coin;
            purchases = some (map fresh_purchase candidates);
          })
          (record s { ledger = set_aside reserve s.ledger })

  unfoldable pub select_basket :
      Answer (List BasketCandidate)
      → (now : ℕ) → ActiveRound
      → KeeperState
      → Run (KeeperState × Report)
  unfolding reserve_for plan_purchases unseen
  select_basket selected now round s = do
    listed ← lift (ask selected)
    let candidates = unseen [] listed
    reserve ← reserve_for round.latest_eligible_count (length candidates)
    return (plan_purchases candidates now reserve round s, worked)

-- `p.status === "pending"`
abbrev pub is_pending : PurchaseRecord → Bool
is_pending p = elim p.status [ PurchaseStatus.pending ↦ true | _ ↦ false ]

-- `purchases.find((p) => p.status === "pending")`
unfoldable pub next_pending : List PurchaseRecord → Option PurchaseRecord
next_pending [] = none
next_pending (p ∷ rest) = let later = next_pending rest in if is_pending p then some p else later

-- A write to the purchase that `next_pending` finds.
unfoldable pub put_pending : PurchaseRecord → List PurchaseRecord → List PurchaseRecord
put_pending new [] = []
put_pending new (p ∷ rest) =
    let later = put_pending new rest in if is_pending p then new ∷ rest else p ∷ later

-- Every purchase that is pending is skipped when the time for buying is over.
unfoldable pub skip_pending : List PurchaseRecord → List PurchaseRecord
skip_pending [] = []
skip_pending (p ∷ rest) =
    (if is_pending p
      then record p { status = PurchaseStatus.skipped; reason = some "buying window elapsed" }
      else p)
    ∷ skip_pending rest

-- A round with the purchase that is under way replaced.
abbrev pub put_purchase : PurchaseRecord → List PurchaseRecord → ActiveRound → ActiveRound
put_purchase p purchases round = record round { purchases = some (put_pending p purchases) }

-- What one buy meets: the new wallet, the signature of its funding transaction and the last block height
-- that it is valid for, whether it is sent, and the swap's answer.
pub record Attempt : Type 0 where
  pub wallet_secret_hex : String
  pub signing : Answer (String × ℕ)
  pub sent : Answer Unit
  pub swap : Answer SwapResult

abbrev pub with_wallet : String → PurchaseRecord → PurchaseRecord
with_wallet secret p = record p {
  swap_wallet_secret_hex = some secret;
  last_error = none;
  reason = none;
  sweep_signatures = [];
  output_checks = 0;
}

abbrev pub with_funding : String × ℕ → (lamports : ℕ) → PurchaseRecord → PurchaseRecord
with_funding (signature, height) lamports p = record p {
  funding =
      some
        (record { signature = signature; last_valid_block_height = height; lamports = lamports });
}

-- The outcome of the swap, written into the purchase; the error is kept whole.
unfoldable pub with_swap : Answer SwapResult → (lamports : ℕ) → PurchaseRecord → PurchaseRecord
with_swap (err text) lamports p = record p { last_error = some text }
with_swap (ok (skipped reason)) lamports p = record p { reason = some reason }
with_swap (ok (signed signature)) lamports p = record p {
  signatures = signature ∷ [];
  lamports_spent = lamports;
}

module _ (params : RoundParams) (a : Attempt) where
  -- `buyOne` up to the settlement: the wallet's key, the funding and the swap's outcome are each saved.
  unfoldable pub buy_one :
      PurchaseRecord
      → List PurchaseRecord
      → ActiveRound
      → (lamports : ℕ) → KeeperState
      → Run PurchaseRecord
  unfolding with_swap
  buy_one p purchases round lamports s = do
    let keyed = with_wallet a.wallet_secret_hex p
    save (with_round (put_purchase keyed purchases round) s)
    let funding = lamports + params.swap_overhead_lamports
    signing ← lift (ask a.signing)
    let funded = with_funding signing funding keyed
    save (with_round (put_purchase funded purchases round) s)
    sent ← lift (ask a.sent)
    let swapped = with_swap a.swap lamports funded
    save (with_round (put_purchase swapped purchases round) s)
    return swapped
