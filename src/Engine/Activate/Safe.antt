-- ===== src/Engine/Activate/Safe.antt =====
-- Well-formed states of keeper/round/engine.ts under activating assets.
use Prim.Native.String.{String}
use stonkfolio.Prelude.{
  ℕ, suc, ◌-◌, ◌≡◌, List, [], ◌∷◌, Option, none, some, Bool, true, false, ltb, leb, refl,
  Bool-cases, if◌then◌else◌, inl, inr, ok, err,
}
use stonkfolio.Send.{Rpc}
use stonkfolio.Store.{KeeperState, ActiveRound, RoundStatus, FundedAsset, FundStatus}
use stonkfolio.Engine.{Answer, ask, Client, Report, worked, RoundParams, Activation}
use stonkfolio.Engine.Costs.{charge_round}
use stonkfolio.Engine.Opening.{or_zero}
use stonkfolio.Engine.Finish.{or_empty, is_pending, release_reservation}
use stonkfolio.Engine.Safe.{
  IsWellFormed, may_pay, Returns, Returns-ok, Returns-err, Returns-if, Returns-option, Returns-ask,
  Returns-bind, credit_inventory-IsWellFormed,
}
use stonkfolio.Engine.Commit.{PreparedAsset, PreparedRound, load_prepared}
use stonkfolio.Engine.Commit.Safe.{load_prepared-Returns}
use stonkfolio.Engine.Activate.{
  Progress, find_asset, return_unused, fail_activation, give_up, activated, adopted, try_activate,
  is_active_account, activate_funded, activate_asset, activate_assets, end_activation, activate,
}

-- The state is well-formed and the round may be paid.
abbrev pub IsSound : Progress → Type 0
IsSound p = IsWellFormed p.state × (may_pay p.round.status ≡ true)

return_unused-IsWellFormed :
    (funded : FundedAsset) (used : ℕ) (s : KeeperState)
    → IsWellFormed s
    → IsWellFormed (return_unused funded used s)
unfolding return_unused
return_unused-IsWellFormed funded used s w = elim (Bool-cases (ltb used funded.fund_amount)) [
  | inl e ↦ rw e (
      credit_inventory-IsWellFormed funded.mint funded.token_program (funded.fund_amount - used) s
        w)
  | inr e ↦ rw e w
]

release_reservation-IsWellFormed :
    (status : FundStatus) (a : FundedAsset) (s : KeeperState)
    → IsWellFormed s
    → IsWellFormed (release_reservation status a s).1
unfolding release_reservation
release_reservation-IsWellFormed status a s w = elim (Bool-cases (is_pending a)) [
  | inl e ↦ rw e (credit_inventory-IsWellFormed a.mint a.token_program a.fund_amount s w)
  | inr e ↦ rw e w
]

module _ (client : Client) (rpc : Rpc) (keeper : String) (params : RoundParams) where
  module _ (is_transient : String → Bool) (now : ℕ) where
    fail_activation-IsSound :
        (funded : FundedAsset) (text : String) (p : Progress)
        → IsSound p
        → IsSound (fail_activation client rpc keeper params is_transient now funded text p)
    unfolding fail_activation give_up
    fail_activation-IsSound funded text p h = elim (Bool-cases (is_transient text)) [
      | inl e ↦ rw e h
      | inr e ↦ rw e (elim (Bool-cases (leb params.max_activation_attempts (suc funded.attempts))) [
        | inl f ↦
            let counted : FundedAsset = record funded {
              last_error = some text;
              attempts = suc funded.attempts;
            } in
            rw f (release_reservation-IsWellFormed FundStatus.abandoned counted p.state h.0, h.1)
        | inr f ↦ rw f h
      ])
    ]

    charge_round-may_pay :
        (signature : Option String) (round : ActiveRound)
        → may_pay round.status ≡ true
        → may_pay (charge_round rpc keeper signature round).status ≡ true
    unfolding charge_round
    charge_round-may_pay none round h = h
    charge_round-may_pay (some signature) round h = h

    try_activate-IsSound :
        (asset : PreparedAsset) (funded : FundedAsset) (p : Progress)
        → IsSound p
        → IsSound (try_activate client rpc keeper params is_transient now asset funded p)
    unfolding try_activate activated
    try_activate-IsSound asset funded p h =
        elim (Bool-cases (ltb now (or_zero funded.next_attempt_at))) [
          | inl e ↦ rw e h
          | inr e ↦
              rw e
                (go (client.open_fund_activate p.round.round_id asset.asset_idx funded.fund_amount))
        ]
      where
        go :
            (answer : Answer Activation)
            → IsSound (elim answer [
              | ok a ↦ activated client rpc keeper params is_transient now funded a p
              | err text ↦ fail_activation client rpc keeper params is_transient now funded text p
            ])
        go (ok a) = (
          return_unused-IsWellFormed funded a.transferred p.state h.0,
          charge_round-may_pay a.signature p.round h.1,
        )
        go (err text) = fail_activation-IsSound funded text p h

    activate_asset-Returns :
        (asset : PreparedAsset) (p : Progress)
        → IsSound p
        → Returns IsSound (activate_asset client rpc keeper params is_transient now asset p)
    unfolding activate_asset activate_funded adopted
    activate_asset-Returns asset p h =
        Returns-option (find_asset asset.mint (or_empty p.round.assets)) (Returns-err _ refl)
          (λ funded.
            Returns-if (is_pending funded)
              (Returns-bind (ask (client.fetch_round_asset p.round.round_id asset.asset_idx))
                (Returns-ask _)
                (λ account e.
                  Returns-option
                    (is_active_account client rpc keeper params is_transient now account)
                    (Returns-ok _ (try_activate-IsSound asset funded p h))
                    (λ net.
                      Returns-bind (ask (client.gross_for_net asset.mint asset.token_program net))
                        (Returns-ask _)
                        (λ used f.
                          Returns-ok _ (return_unused-IsWellFormed funded used p.state h.0, h.1)))))
              (Returns-ok _ h))

    activate_assets-Returns :
        (assets : List PreparedAsset) (p : Progress)
        → IsSound p
        → Returns IsSound (activate_assets client rpc keeper params is_transient now assets p)
    unfolding activate_assets
    activate_assets-Returns [] p h = Returns-ok _ h
    activate_assets-Returns (asset ∷ rest) p h =
        Returns-bind (activate_asset client rpc keeper params is_transient now asset p)
          (activate_asset-Returns asset p h)
          (λ after sound.
            Returns-option after.report (activate_assets-Returns rest after sound)
              (λ said. Returns-ok _ sound))

    end_activation-IsSound :
        (p : Progress)
        → IsSound p
        → IsSound (end_activation client rpc keeper params is_transient now p)
    unfolding end_activation
    end_activation-IsSound p h = go p.report
      where
        go :
            (report : Option Report)
            → IsSound (elim report [
              | some said ↦ p
              | none ↦ if p.backing_off then p else record p {
                round = record p.round { status = RoundStatus.active };
                report = some worked;
              }
            ])
        go (some said) = h
        go none = elim (Bool-cases p.backing_off) [ inl e ↦ rw e h | inr e ↦ rw e (h.0, refl) ]

    -- Activation keeps the state well-formed.
    pub activate-Returns :
        (bundle : Answer PreparedRound) (round : ActiveRound) (s : KeeperState)
        → IsWellFormed s
        → may_pay round.status ≡ true
        → Returns IsSound (activate client rpc keeper params is_transient now bundle round s)
    unfolding activate
    activate-Returns bundle round s w e =
        let start : Progress = record {
          round = round;
          state = s;
          backing_off = false;
          report = none;
        } in
        Returns-bind (load_prepared bundle round) (load_prepared-Returns bundle round)
          (λ prepared u.
            Returns-bind
              (activate_assets client rpc keeper params is_transient now prepared.assets start)
              (activate_assets-Returns prepared.assets start (w, e))
              (λ done sound. Returns-ok _ (end_activation-IsSound done sound)))
