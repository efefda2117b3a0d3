-- ===== src/Engine/Activate/Kept.antt =====
-- What activating an asset in keeper/round/engine.ts does to the basket tokens that the coin accounts for.
use Prim.Native.String.{String}
use text.Mathlib.Text.{◌==◌ as str_eq}
use text.Mathlib.TextEquality.{eq_iff}
use stonkfolio.Prelude.{
  ℕ, suc, ◌+◌, ◌-◌, ◌≡◌, List, [], ◌∷◌, Option, none, some, Bool, true, ltb, leb, min, arith, refl,
  ap, sym, subst, ◌∙◌, Bool-cases, inl, inr, if◌then◌else◌,
}
use stonkfolio.Send.{Rpc}
use stonkfolio.Store.{KeeperState, ActiveRound, FundedAsset, FundStatus, amount_held}
use stonkfolio.Store.Inventory.{for_mint, credit_inventory_lem}
use stonkfolio.Engine.{Client, RoundParams, Activation}
use stonkfolio.Engine.Costs.{charge_round}
use stonkfolio.Engine.Finish.{or_empty, is_pending}
use stonkfolio.Engine.Finish.Kept.{reserved, reserved_by}
use stonkfolio.Engine.Activate.{
  default_backoff, Progress, find_asset, put_asset, update_asset, return_unused, fail_activation,
  give_up, activated, adopted,
}

-- What a reserved asset holds of a mint.
abbrev pub held_by : (asked : String) → FundedAsset → ℕ
held_by asked a = if is_pending a then for_mint asked a.mint a.fund_amount else 0

-- A write changes the reservations by what the new asset holds less than the old one.
put_asset-reserved :
    (asked mint : String) (new old : FundedAsset) (assets : List FundedAsset)
    → find_asset mint assets ≡ some old
    → reserved asked (put_asset mint new assets) + held_by asked old
      ≡ reserved asked assets + held_by asked new
unfolding put_asset find_asset reserved
put_asset-reserved asked mint new old [] found = cc
put_asset-reserved asked mint new old (a ∷ rest) found = elim (Bool-cases (str_eq a.mint mint)) [
  | inl e ↦
      let same : a ≡ old = ground arith in
      let held = ap (held_by asked) same in rw e (omega (arith, held))
  | inr e ↦ rw e (omega (arith, put_asset-reserved asked mint new old rest (rw e at found)))
]

-- What the inventory and the round account for.
abbrev pub held : (asked : String) → Progress → ℕ
unfolding reserved amount_held
held asked p = amount_held asked p.state.inventory + reserved_by asked p.round

return_unused_lem :
    (asked : String) (funded : FundedAsset) (used : ℕ) (s : KeeperState)
    → amount_held asked (return_unused funded used s).inventory
      ≡ amount_held asked s.inventory + for_mint asked funded.mint (funded.fund_amount - used)
unfolding return_unused
return_unused_lem asked funded used s = elim (Bool-cases (ltb used funded.fund_amount)) [
  | inl e ↦
      rw e
        (credit_inventory_lem asked funded.mint funded.token_program (funded.fund_amount - used) s)
  | inr e ↦ rw e (ground arith)
]

-- The asset that is found has the mint that was looked for.
find_asset-mint :
    (mint : String) (assets : List FundedAsset) {a : FundedAsset}
    → find_asset mint assets ≡ some a
    → a.mint ≡ mint
unfolding find_asset
find_asset-mint mint [] found = cc
find_asset-mint mint (b ∷ rest) {a} found = elim (Bool-cases (str_eq b.mint mint)) [
  | inl e ↦
      let same : b ≡ a = ground arith in
      let named : b.mint ≡ mint = ground (arith, eq_iff b.mint mint) in
      sym (ap (λ x. x.mint) same) ∙ named
  | inr e ↦ find_asset-mint mint rest (rw e at found)
]

-- A round whose asset is written: the found one is replaced.
update_asset-reserved :
    (asked : String) (new old : FundedAsset) (round : ActiveRound)
    → find_asset old.mint (or_empty round.assets) ≡ some old
    → reserved_by asked (update_asset old.mint new round) + held_by asked old
      ≡ reserved_by asked round + held_by asked new
unfolding reserved
update_asset-reserved asked new old round found =
    put_asset-reserved asked old.mint new old (or_empty round.assets) found

module _ (client : Client) (rpc : Rpc) (keeper : String) (params : RoundParams) where
  module _ (is_transient : String → Bool) (now : ℕ) (asked : String) where
    charge_round-reserved :
        (signature : Option String) (round : ActiveRound)
        → (charge_round rpc keeper signature round).assets ≡ round.assets
    unfolding charge_round
    charge_round-reserved none round = refl
    charge_round-reserved (some signature) round = refl

    module _ (funded : FundedAsset) (p : Progress) where
      activated-held :
          (a : Activation)
          → find_asset funded.mint (or_empty p.round.assets) ≡ some funded
          → is_pending funded ≡ true
          → held asked (activated client rpc keeper params is_transient now funded a p)
              + for_mint asked funded.mint (min a.transferred funded.fund_amount)
            ≡ held asked p
      unfolding activated held
      activated-held a found reserved_yet =
          let charged = charge_round rpc keeper a.signature p.round in
          let assets = charge_round-reserved a.signature p.round in
          let there =
            subst (λ x. find_asset funded.mint (or_empty x) ≡ some funded) (sym assets) found in
          let written =
            update_asset-reserved asked (record funded { status = FundStatus.active }) funded
              charged there in
          let same = ap (λ x. reserved asked (or_empty x)) assets in
          let back = return_unused_lem asked funded a.transferred p.state in
          ground (arith, rw reserved_yet at written, same, back)

      adopted-held :
          (used : ℕ)
          → find_asset funded.mint (or_empty p.round.assets) ≡ some funded
          → is_pending funded ≡ true
          → held asked (adopted client rpc keeper params is_transient now funded used p)
              + for_mint asked funded.mint (min used funded.fund_amount)
            ≡ held asked p
      unfolding adopted held
      adopted-held used found reserved_yet =
          let new : FundedAsset = record funded { status = FundStatus.active } in
          let written = update_asset-reserved asked new funded p.round found in
          let back = return_unused_lem asked funded used p.state in
          ground (arith, rw reserved_yet at written, back)

      fail_activation-held :
          (text : String)
          → find_asset funded.mint (or_empty p.round.assets) ≡ some funded
          → is_pending funded ≡ true
          → held asked (fail_activation client rpc keeper params is_transient now funded text p)
            ≡ held asked p
      unfolding fail_activation give_up held
      fail_activation-held text found reserved_yet =
          let told = record funded { last_error = some text } in
          let counted = record told { attempts = suc funded.attempts } in
          elim (Bool-cases (is_transient text)) [
            | inl e ↦
                let new : FundedAsset = record told { next_attempt_at = some (now + 30) } in
                rw e (ground (arith, update_asset-reserved asked new funded p.round found))
            | inr e ↦
                rw e (elim (Bool-cases (leb params.max_activation_attempts (suc funded.attempts))) [
                  | inl last ↦
                      let left : FundedAsset = record counted { status = FundStatus.abandoned } in
                      rw last (
                        rw reserved_yet (
                          ground (
                            arith,
                            rw reserved_yet at
                                (update_asset-reserved asked left funded p.round found),
                            credit_inventory_lem asked funded.mint funded.token_program
                                funded.fund_amount p.state,
                          )))
                  | inr more ↦
                      let new : FundedAsset = record counted {
                        next_attempt_at = some (now + default_backoff (suc funded.attempts));
                      } in
                      rw more (ground (arith, update_asset-reserved asked new funded p.round found))
                ])
          ]

      -- For an asset that is reserved for the round: an activation that is sent, or found to have
      -- landed before a crash, takes from the inventory and the round together what was transferred,
      -- up to the reservation; one that fails takes nothing, whether it is tried again or given up.
      pub activation-held :
          find_asset funded.mint (or_empty p.round.assets) ≡ some funded
          → is_pending funded ≡ true
          → ((a : Activation)
              → held asked (activated client rpc keeper params is_transient now funded a p)
                  + for_mint asked funded.mint (min a.transferred funded.fund_amount)
                ≡ held asked p)
            × ((used : ℕ)
                → held asked (adopted client rpc keeper params is_transient now funded used p)
                    + for_mint asked funded.mint (min used funded.fund_amount)
                  ≡ held asked p)
            × ((text : String)
                → held asked
                    (fail_activation client rpc keeper params is_transient now funded text p)
                  ≡ held asked p)
      activation-held found reserved_yet = (
        λ a. activated-held a found reserved_yet,
        λ used. adopted-held used found reserved_yet,
        λ text. fail_activation-held text found reserved_yet,
      )
