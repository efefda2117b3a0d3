-- ===== src/Engine/Settle/Safe.antt =====
-- Well-formed states of keeper/round/engine.ts under settling a purchase.
use Prim.Native.String.{String}
use stonkfolio.Prelude.{ℕ, ◌==◌, List, none, some, Option, not, ◌&&◌, ltb, Bool-cases, inl, inr}
use stonkfolio.Send.{Rpc, SignatureOutcome, resolve_signature}
use stonkfolio.Store.{KeeperState, ActiveRound, PurchaseRecord, Funding, Sweep}
use stonkfolio.Engine.{Client, RoundParams, with_round, waiting, return}
use stonkfolio.Engine.Costs.{book_basket}
use stonkfolio.Engine.Safe.{
  IsWellFormed, Safe, Kept, Safe-return, Safe-if, Safe-choice, Safe-option, Safe-ask, Safe-save,
  Safe-bind, credit_inventory-IsWellFormed,
}
use stonkfolio.Engine.Settle.{
  Wallet, SweepResult, is_empty, no_reason, swaps_of, store_purchase, finish_bought, look_again,
  finish_empty, attempt_cost, booked_purchase, book_sweep, sweep_anew, run_sweep, settle_sweep,
  settle_purchase,
}

module _ (client : Client) (rpc : Rpc) (keeper : String) (wallet : Wallet)
    (params : RoundParams) where
  swaps_of-Safe :
      (public_key : String) (p : PurchaseRecord)
      → Safe (λ swaps. Unit) (swaps_of client rpc keeper wallet params public_key p)
  unfolding swaps_of
  swaps_of-Safe public_key p =
      Safe-choice (is_empty p.signatures)
        (Safe-bind (Safe-ask wallet.history) (λ history e. Safe-return _ tt)) (Safe-return _ tt)

  module _ (purchases : List PurchaseRecord) (round : ActiveRound) where
    finish_bought-Safe :
        (public_key : String) (tokens : ℕ) (p : PurchaseRecord) (s : KeeperState)
        → IsWellFormed (with_round round s)
        → Safe Kept
            (finish_bought client rpc keeper wallet params purchases round public_key tokens p s)
    unfolding finish_bought store_purchase
    finish_bought-Safe public_key tokens p s w = Safe-bind (swaps_of-Safe public_key p) (λ swaps u.
        Safe-bind (Safe-ask (client.net_after_transfer_fee p.mint p.token_program tokens))
          (λ net e. Safe-return _ (credit_inventory-IsWellFormed p.mint p.token_program net _ w)))

    look_again-Kept :
        (swaps : List String) (p : PurchaseRecord) (s : KeeperState)
        → IsWellFormed (with_round round s)
        → Kept (look_again client rpc keeper wallet params purchases round swaps p s)
    unfolding look_again store_purchase
    look_again-Kept swaps p s w =
        elim (Bool-cases (not (is_empty swaps) && ltb p.output_checks 5)) [
          | inl e ↦ rw e w
          | inr e ↦ rw e w
        ]

    finish_empty-Safe :
        (public_key : String) (p : PurchaseRecord) (s : KeeperState)
        → IsWellFormed (with_round round s)
        → Safe Kept (finish_empty client rpc keeper wallet params purchases round public_key p s)
    unfolding finish_empty store_purchase
    finish_empty-Safe public_key p s w =
        Safe-choice (no_reason p)
          (Safe-bind (swaps_of-Safe public_key p)
            (λ swaps u. Safe-return _ (look_again-Kept swaps p s w)))
          (Safe-return _ w)

    book_sweep-Safe :
        (public_key : String) (funding : Option Funding) (sweep : SweepResult) (p : PurchaseRecord)
        (s : KeeperState)
        → IsWellFormed (with_round round s)
        → Safe Kept (
            book_sweep client rpc keeper wallet params purchases round public_key funding sweep p s)
    unfolding book_sweep
    book_sweep-Safe public_key funding sweep p s w =
        let cost = attempt_cost rpc keeper funding sweep in
        let charged = record s { ledger = book_basket cost s.ledger } in
        let booked = booked_purchase sweep p in
        Safe-if (sweep.tokens == 0) (finish_empty-Safe public_key booked charged w)
          (finish_bought-Safe public_key sweep.tokens booked charged w)

    sweep_anew-Safe :
        (p : PurchaseRecord) (s : KeeperState)
        → IsWellFormed (with_round round s)
        → Safe (λ swept. Unit) (sweep_anew client rpc keeper wallet params purchases round p s)
    unfolding sweep_anew store_purchase
    sweep_anew-Safe p s w = Safe-bind (Safe-ask wallet.sweep) (λ plan e.
        Safe-option plan.signing (Safe-return _ tt) (λ signing.
          Safe-bind (Safe-save _ w)
            (λ saved u. Safe-bind (Safe-ask plan.sent) (λ sent f. Safe-return _ tt))))

    run_sweep-Safe :
        (public_key : String) (funding : Option Funding) (p : PurchaseRecord) (s : KeeperState)
        → IsWellFormed (with_round round s)
        → Safe Kept
            (run_sweep client rpc keeper wallet params purchases round public_key funding p s)
    unfolding run_sweep
    run_sweep-Safe public_key funding p s w =
        Safe-bind (sweep_anew-Safe p s w)
          (λ swept u. book_sweep-Safe public_key funding swept.0 swept.1 s w)

    settle_sweep-Safe :
        (public_key : String) (funding : Option Funding) (sweep : Option Sweep) (p : PurchaseRecord)
        (s : KeeperState)
        → IsWellFormed (with_round round s)
        → Safe Kept (
            settle_sweep client rpc keeper wallet params purchases round public_key funding sweep p
              s)
    unfolding settle_sweep store_purchase
    settle_sweep-Safe public_key funding none p s w = run_sweep-Safe public_key funding p s w
    settle_sweep-Safe public_key funding (some r) p s w =
        by_outcome (resolve_signature rpc r.signature r.last_valid_block_height)
      where
        by_outcome :
            (outcome : SignatureOutcome)
            → Safe Kept (elim outcome [
              | SignatureOutcome.pending ↦
                  return
                    (store_purchase client rpc keeper wallet params purchases round p s, waiting)
              | SignatureOutcome.landed ↦
                  book_sweep client rpc keeper wallet params purchases round public_key funding
                    (record {
                      tokens = r.tokens;
                      lamports_returned = r.lamports_returned;
                      signature = some r.signature;
                    })
                    p
                    s
              | _ ↦ run_sweep client rpc keeper wallet params purchases round public_key funding p s
            ])
        by_outcome SignatureOutcome.pending = Safe-return _ w
        by_outcome SignatureOutcome.landed =
            book_sweep-Safe public_key funding
              (record {
                tokens = r.tokens;
                lamports_returned = r.lamports_returned;
                signature = some r.signature;
              })
              p s w
        by_outcome SignatureOutcome.failed = run_sweep-Safe public_key funding p s w
        by_outcome SignatureOutcome.expired = run_sweep-Safe public_key funding p s w

    -- Settling keeps the state well-formed.
    pub settle_purchase-Safe :
        (secret_hex : String) (p : PurchaseRecord) (s : KeeperState)
        → IsWellFormed (with_round round s)
        → Safe Kept (settle_purchase client rpc keeper wallet params purchases round secret_hex p s)
    unfolding settle_purchase store_purchase
    settle_purchase-Safe secret_hex p s w =
        Safe-option p.funding (settle_sweep-Safe (wallet.public_key secret_hex) none p.sweep p s w)
          (λ f. by_outcome f (resolve_signature rpc f.signature f.last_valid_block_height))
      where
        by_outcome :
            (f : Funding) (outcome : SignatureOutcome)
            → Safe Kept (elim outcome [
              | SignatureOutcome.pending ↦
                  return
                    (store_purchase client rpc keeper wallet params purchases round p s, waiting)
              | SignatureOutcome.landed ↦
                  settle_sweep client rpc keeper wallet params purchases round
                    (wallet.public_key secret_hex)
                    (some f)
                    p.sweep
                    p
                    s
              | _ ↦
                  settle_sweep client rpc keeper wallet params purchases round
                    (wallet.public_key secret_hex)
                    none
                    p.sweep
                    p
                    s
            ])
        by_outcome f SignatureOutcome.pending = Safe-return _ w
        by_outcome f SignatureOutcome.landed =
            settle_sweep-Safe (wallet.public_key secret_hex) (some f) p.sweep p s w
        by_outcome f SignatureOutcome.failed =
            settle_sweep-Safe (wallet.public_key secret_hex) none p.sweep p s w
        by_outcome f SignatureOutcome.expired =
            settle_sweep-Safe (wallet.public_key secret_hex) none p.sweep p s w
