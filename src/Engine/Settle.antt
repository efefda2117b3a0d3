-- ===== src/Engine/Settle.antt =====
-- `settlePurchase` of keeper/round/engine.ts: a swap wallet is swept back to the keeper, and what the
-- attempt cost and bought is recorded.
pub mod Safe
use Prim.Native.String.{String}
use text.Mathlib.Text.{◌==◌ as str_eq}
use stonkfolio.Prelude.{
  ℕ, suc, ◌+◌, List, [], ◌∷◌, ◌++◌, Option, none, some, Bool, true, false, not, ◌&&◌, ◌||◌, any,
  leb, ltb, ◌==◌, if◌then◌else◌,
}
use stonkfolio.Prelude.Int.{ℤ, pos, sub_ℕ, ◌-ℤ◌}
use stonkfolio.Prelude.Maps.{has}
use stonkfolio.Send.{Rpc, SignatureOutcome, resolve_signature, lamport_change}
use stonkfolio.Round.Trigger.{lamports_per_signature}
use stonkfolio.Store.{
  KeeperState, ActiveRound, PurchaseRecord, PurchaseStatus, Funding, Sweep, credit_inventory,
}
use stonkfolio.Engine.{
  Answer, ask, Report, waiting, worked, Client, RoundParams, Run, ◌>>=◌, ◌>>◌, return, lift, save,
  with_round,
}
use stonkfolio.Engine.Costs.{cost_of, book_basket}
use stonkfolio.Engine.Opening.{or_zero}
use stonkfolio.Engine.Buy.{put_purchase}

-- A transaction of the swap wallet's history; `signers` is `none` where it cannot be fetched.
pub record HistoryEntry : Type 0 where
  pub signature : String
  pub failed_on_chain : Bool
  pub signers : Option (List String)

signed_by : String → Option (List String) → Bool
signed_by wallet none = false
signed_by wallet (some signers) = any (λ k. str_eq k wallet) signers

-- The successful transactions that the wallet signed, other than the keeper's sweeps of it.
unfoldable pub wallet_swaps :
    (wallet : String) (sweeps : List String) → List HistoryEntry → List String
unfolding has signed_by
wallet_swaps wallet sweeps [] = []
wallet_swaps wallet sweeps (e ∷ rest) =
    let swaps = wallet_swaps wallet sweeps rest in
    if not (e.failed_on_chain || has e.signature sweeps) && signed_by wallet e.signers
    then e.signature ∷ swaps
    else swaps

-- `SweepResult`
pub record SweepResult : Type 0 where
  pub tokens : ℕ
  pub lamports_returned : ℕ
  pub signature : Option String

-- What sweeping a wallet would move, the signature of that transaction and the last block height that
-- it is valid for, or `none` where there is nothing to move; and whether it is sent.
pub record SweepAttempt : Type 0 where
  pub tokens : ℕ
  pub lamports_returned : ℕ
  pub signing : Option (String × ℕ)
  pub sent : Answer Unit

pub record Wallet : Type 0 where
  pub public_key : (secret_hex : String) → String
  pub sweep : Answer SweepAttempt
  pub history : Answer (List HistoryEntry)

-- `!purchase.reason`
abbrev pub no_reason : PurchaseRecord → Bool
no_reason p = elim p.reason [ none ↦ true | some text ↦ str_eq text "" ]

abbrev pub is_empty : {A : Type 0} → List A → Bool
is_empty [] = true
is_empty (x ∷ xs) = false

-- The cost of a funding and a sweep, where the node does not know their measured effect by what was
-- planned.
unfoldable pub attempt_cost : Rpc → (keeper : String) → Option Funding → SweepResult → ℤ
attempt_cost rpc keeper funding sweep =
    let spent : ℤ = elim funding [
      | none ↦ pos 0
      | some f ↦
          cost_of (lamport_change rpc f.signature keeper) (f.lamports + lamports_per_signature)
    ] in
    elim sweep.signature [
      | none ↦ spent
      | some signature ↦ elim (lamport_change rpc signature keeper) [
        | some change ↦ spent -ℤ change.delta
        | none ↦ spent -ℤ sub_ℕ sweep.lamports_returned lamports_per_signature
      ]
    ]

-- Once both costs are booked.
abbrev pub booked_purchase : SweepResult → PurchaseRecord → PurchaseRecord
booked_purchase sweep p = record p {
  funding = none;
  sweep = none;
  sweep_signatures = elim sweep.signature [
    | none ↦ p.sweep_signatures
    | some signature ↦ p.sweep_signatures ++ signature ∷ []
  ];
}

-- The end of an attempt that bought nothing.
-- The recorded reason says the same without the count and the error.
unfoldable pub failed_purchase : RoundParams → PurchaseRecord → PurchaseRecord
failed_purchase params p =
    let cleared = record p { swap_wallet_secret_hex = none; signatures = []; lamports_spent = 0 } in
    if not (no_reason p)
    then record cleared { status = PurchaseStatus.skipped }
    else if leb params.max_buy_attempts (suc p.attempts)
    then record cleared {
      attempts = suc p.attempts;
      status = PurchaseStatus.skipped;
      reason = some "failed too often";
    }
    else record cleared { attempts = suc p.attempts }

-- The end of an attempt whose sweep brought tokens.
unfoldable pub bought_purchase :
    (wallet : String) (tokens budget : ℕ) (swaps : List String) → PurchaseRecord → PurchaseRecord
bought_purchase wallet tokens budget swaps p = record p {
  swap_wallet_secret_hex = none;
  status = PurchaseStatus.bought;
  buyer = some wallet;
  received = tokens;
  lamports_spent = if p.lamports_spent == 0 then budget else p.lamports_spent;
  signatures = swaps;
}

module _ (client : Client) (rpc : Rpc) (keeper : String) (wallet : Wallet)
    (params : RoundParams) where
  -- The signatures recorded for the swap, or those that the wallet's history shows.
  swaps_of : (public_key : String) → PurchaseRecord → Run (List String)
  unfolding wallet_swaps
  swaps_of public_key p = elim (is_empty p.signatures) [
    | true ↦ do
      history ← lift (ask wallet.history)
      return (wallet_swaps public_key p.sweep_signatures history)
    | false ↦ return p.signatures
  ]

  module _ (purchases : List PurchaseRecord) (round : ActiveRound) where
    -- The step's state with the purchase written back.
    store_purchase : PurchaseRecord → KeeperState → KeeperState
    store_purchase p s = with_round (put_purchase p purchases round) s

    finish_bought :
        (public_key : String) (tokens : ℕ)
        → PurchaseRecord
        → KeeperState
        → Run (KeeperState × Report)
    unfolding bought_purchase store_purchase swaps_of credit_inventory
    finish_bought public_key tokens p s = do
      swaps ← swaps_of public_key p
      net ← lift (ask (client.net_after_transfer_fee p.mint p.token_program tokens))
      let bought = bought_purchase public_key tokens (or_zero round.basket_budget_lamports) swaps p
      return (credit_inventory p.mint p.token_program net (store_purchase bought s), worked)

    -- The branches for the swaps that were found.
    look_again : (swaps : List String) → PurchaseRecord → KeeperState → KeeperState × Report
    unfolding failed_purchase store_purchase
    look_again swaps p s =
        if not (is_empty swaps) && ltb p.output_checks 5
        then (
          store_purchase (record p { signatures = swaps; output_checks = suc p.output_checks }) s,
          waiting,
        )
        else (store_purchase (failed_purchase params p) s, worked)

    -- A landed swap whose output is not visible yet is looked for five times.
    finish_empty : (public_key : String) → PurchaseRecord → KeeperState → Run (KeeperState × Report)
    unfolding failed_purchase store_purchase swaps_of look_again
    finish_empty public_key p s = elim (no_reason p) [
      | true ↦ do swaps ← swaps_of public_key p; return (look_again swaps p s)
      | false ↦ return (store_purchase (failed_purchase params p) s, worked)
    ]

    -- From the point where the sweep is done.
    unfoldable pub book_sweep :
        (public_key : String)
        → Option Funding
        → SweepResult
        → PurchaseRecord
        → KeeperState
        → Run (KeeperState × Report)
    unfolding finish_bought finish_empty attempt_cost book_basket
    book_sweep public_key funding sweep p s =
        let cost = attempt_cost rpc keeper funding sweep in
        let charged = record s { ledger = book_basket cost s.ledger } in
        let booked = booked_purchase sweep p in
        if sweep.tokens == 0
        then finish_empty public_key booked charged
        else finish_bought public_key sweep.tokens booked charged

    -- A new sweep, saved before it is sent.
    sweep_anew : PurchaseRecord → KeeperState → Run (SweepResult × PurchaseRecord)
    unfolding store_purchase
    sweep_anew p s = do
      plan ← lift (ask wallet.sweep)
      elim plan.signing [
        | none ↦ return (
          record { tokens = 0; lamports_returned = 0; signature = none },
          record p { sweep = none },
        )
        | some (signature, height) ↦ do
          let journaled = record p {
            sweep = some (record {
              signature = signature;
              last_valid_block_height = height;
              tokens = plan.tokens;
              lamports_returned = plan.lamports_returned;
            });
          }
          save (store_purchase journaled s)
          sent ← lift (ask plan.sent)
          return (
            record {
              tokens = plan.tokens;
              lamports_returned = plan.lamports_returned;
              signature = some signature;
            },
            journaled,
          )
      ]

    run_sweep :
        (public_key : String)
        → Option Funding
        → PurchaseRecord
        → KeeperState
        → Run (KeeperState × Report)
    unfolding sweep_anew book_sweep
    run_sweep public_key funding p s = do
      (sweep, swept) ← sweep_anew p s
      book_sweep public_key funding sweep swept s

    -- A recorded sweep that landed is booked from its record.
    settle_sweep :
        (public_key : String)
        → Option Funding
        → Option Sweep
        → PurchaseRecord
        → KeeperState
        → Run (KeeperState × Report)
    unfolding run_sweep book_sweep store_purchase
    settle_sweep public_key funding none p s = run_sweep public_key funding p s
    settle_sweep public_key funding (some r) p s =
        elim (resolve_signature rpc r.signature r.last_valid_block_height) [
          | SignatureOutcome.pending ↦ return (store_purchase p s, waiting)
          | SignatureOutcome.landed ↦
              book_sweep public_key funding
                (record {
                  tokens = r.tokens;
                  lamports_returned = r.lamports_returned;
                  signature = some r.signature;
                })
                p s
          | _ ↦ run_sweep public_key funding p s
        ]

    -- The funding counts where it landed.
    unfoldable pub settle_purchase :
        (secret_hex : String) → PurchaseRecord → KeeperState → Run (KeeperState × Report)
    unfolding settle_sweep store_purchase resolve_signature
    settle_purchase secret p s =
        let public_key = wallet.public_key secret in
        elim p.funding [
          | none ↦ settle_sweep public_key none p.sweep p s
          | some f ↦ elim (resolve_signature rpc f.signature f.last_valid_block_height) [
            | SignatureOutcome.pending ↦ return (store_purchase p s, waiting)
            | SignatureOutcome.landed ↦ settle_sweep public_key (some f) p.sweep p s
            | _ ↦ settle_sweep public_key none p.sweep p s
          ]
        ]
