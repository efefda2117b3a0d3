-- ===== src/Engine/Close/Safe.antt =====
-- Well-formed states of keeper/round/engine.ts under closing an expired asset.
use Prim.Native.String.{String}
use stonkfolio.Prelude.{ℕ, zero, suc, some}
use stonkfolio.Send.{Rpc}
use stonkfolio.Store.{KeeperState, ExpiringAsset}
use stonkfolio.Engine.{ask, Client}
use stonkfolio.Engine.Costs.{charge_basket}
use stonkfolio.Engine.Safe.{
  IsWellFormed, Kept, Returns, Returns-ok, Returns-option, Returns-answer, Returns-ask,
  Returns-bind, credit_inventory-IsWellFormed,
}
use stonkfolio.Engine.Close.{credit_remaining, removed, close_account, close_expired}

module _ (client : Client) (rpc : Rpc) (keeper : String) (now : ℕ) where
  credit_remaining-Returns :
      (asset : ExpiringAsset) (remaining : ℕ) (s : KeeperState)
      → IsWellFormed s
      → Returns IsWellFormed (credit_remaining client rpc keeper now asset remaining s)
  unfolding credit_remaining
  credit_remaining-Returns asset zero s w = Returns-ok _ w
  credit_remaining-Returns asset (suc remaining) s w =
      Returns-bind
        (ask (client.net_after_transfer_fee asset.mint asset.token_program (suc remaining)))
        (Returns-ask _)
        (λ net e.
          Returns-ok _ (credit_inventory-IsWellFormed asset.mint asset.token_program net s w))

  -- A close, and one that fails, keep the state well-formed.
  pub close_expired-Returns :
      (round_id : ℕ) (asset : ExpiringAsset) (s : KeeperState)
      → IsWellFormed s
      → Returns Kept (close_expired client rpc keeper now round_id asset s)
  unfolding close_expired close_account removed
  close_expired-Returns round_id asset s w =
      Returns-bind (ask (client.fetch_round_asset round_id asset.asset_idx)) (Returns-ask _)
        (λ account e. Returns-option account (Returns-ok _ w) (λ held.
          Returns-bind (ask (client.vault_balance round_id asset.asset_idx)) (Returns-ask _)
            (λ remaining f.
              Returns-answer (client.close_asset round_id asset.asset_idx) (λ text. Returns-ok _ w)
                (λ signature.
                  let charged = record s {
                    ledger = charge_basket rpc keeper (some signature) s.ledger;
                  } in
                  Returns-bind (credit_remaining client rpc keeper now asset remaining charged)
                    (credit_remaining-Returns asset remaining charged w)
                    (λ credited kept. Returns-ok _ kept)))))
