-- ===== src/Engine/Reserve/Safe.antt =====
-- Well-formed states of keeper/round/engine.ts under reserving assets.
use Prim.Native.String.{String}
use stonkfolio.Prelude.{◌≡◌, ◌==◌, ◌||◌, not, List, [], ◌∷◌, length, filter, refl, subst, sym, some}
use stonkfolio.Prelude.Maps.{lookup}
use stonkfolio.Round.Policy.{RoundPolicy}
use stonkfolio.Store.{RoundStatus, KeeperState, ActiveRound, FundedAsset, PurchaseRecord}
use stonkfolio.Engine.{Answer, ask, Client, RoundParams, with_round}
use stonkfolio.Engine.Finish.{or_empty}
use stonkfolio.Engine.Safe.{
  IsWellFormed, Collects, Pays, Kept, Returns, Returns-ok, Returns-if, Returns-option, Returns-ask,
  Returns-bind,
}
use stonkfolio.Engine.Reserve.{
  Mints, reserve_entry, reserve_mint, reserve_mints, reserve_assets, is_vetted, is_bought, mints_of,
  max_assets_per_round,
}

module _ (client : Client) (policy : RoundPolicy) (params : RoundParams) where
  module _ (mints : Mints) (bought : List PurchaseRecord) where
    reserve_mint-Returns :
        (mint : String) (assets : List FundedAsset) (s : KeeperState)
        → Returns
            (λ mid. mid.1.paying ≡ s.paying)
            (reserve_mint client policy params mints bought mint (assets, s))
    unfolding reserve_mint reserve_entry
    reserve_mint-Returns mint assets s =
        Returns-option (lookup mint s.inventory) (Returns-ok _ refl) (λ entry.
          Returns-if
            ((entry.amount == 0)
              || not (is_vetted client policy params mints mint entry.token_program))
            (Returns-ok _ refl)
            (Returns-bind
              (ask (client.net_after_transfer_fee mint entry.token_program entry.amount))
              (Returns-ask _) (λ net e. Returns-ok _ refl)))

    reserve_mints-Returns :
        (todo : List String) (assets : List FundedAsset) (s : KeeperState)
        → Returns
            (λ mid. mid.1.paying ≡ s.paying)
            (reserve_mints client policy params mints bought todo (assets, s))
    unfolding reserve_mints
    reserve_mints-Returns [] assets s = Returns-ok _ refl
    reserve_mints-Returns (mint ∷ todo) assets s =
        Returns-if (length assets == max_assets_per_round) (Returns-ok _ refl) (
          Returns-bind (reserve_mint client policy params mints bought mint (assets, s))
            (reserve_mint-Returns mint assets s)
            (λ mid same.
              subst
                (λ paying.
                  Returns (λ end. end.1.paying ≡ paying)
                    (reserve_mints client policy params mints bought todo (mid.0, mid.1)))
                same (reserve_mints-Returns todo mid.0 mid.1)))

  -- Reserving keeps the state well-formed.
  pub reserve_assets-Returns :
      (infos : Answer Mints) (round : ActiveRound) (s : KeeperState)
      → IsWellFormed (with_round round s)
      → Returns Kept (reserve_assets client policy params infos round s)
  unfolding reserve_assets
  reserve_assets-Returns infos round s w =
      let bought = filter is_bought (or_empty round.purchases) in
      Returns-bind (ask infos) (Returns-ask infos) (λ mints e.
        Returns-bind
          (reserve_mints client policy params mints bought
            (mints_of client policy params bought s.inventory) ([], s))
          (reserve_mints-Returns mints bought (mints_of client policy params bought s.inventory) []
            s)
          (λ mid same. Returns-ok _ (
            subst
              (λ paying.
                Collects (some (record round { status = RoundStatus.funded; assets = some mid.0 }))
                  paying
                × Pays paying)
              (sym same) ((refl, w.0.1), w.1))))
