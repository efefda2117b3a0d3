-- ===== src/Engine/Reserve/Vetted.antt =====
-- Which assets keeper/round/engine.ts reserves for a round, and how many.
use Prim.Native.String.{String}
use stonkfolio.Prelude.{
  ℕ, ◌≡◌, ◌≤◌, ◌<◌, List, [], ◌∷◌, some, not, ◌==◌, ◌||◌, arith, refl, subst, ◌+◌, Bool, true,
  false, All, All-append, Bool-cases, Option-cases, inl, inr, ok, ok-inj, >>=-eq-ok, length,
  length-append, filter, ap, sym,
}
use text.Mathlib.Text.{◌==◌ as str_eq}
use text.Mathlib.TextEquality.{eq_iff}
use stonkfolio.Tokens.{MintVetResult, accepted, refused, vet_mint_data}
use stonkfolio.Prelude.Maps.{lookup}
use stonkfolio.Round.Policy.{RoundPolicy}
use stonkfolio.Store.{KeeperState, ActiveRound, FundedAsset, PurchaseRecord, RoundStatus}
use stonkfolio.Engine.{ask, Client, RoundParams, Report}
use stonkfolio.Engine.Finish.{or_empty, is_pending}
use stonkfolio.Engine.Reserve.{
  Mints, MintInfo, is_accepted, reserve_entry, reserve_mint, reserve_mints, reserve_assets,
  reserved_asset, is_vetted, is_bought, mints_of, max_assets_per_round,
}

passed :
    (amount : ℕ) (vetted : Bool)
    → ((amount == 0) || not vetted) ≡ false
    → (vetted ≡ true) × (0 < amount)
passed amount vetted h = ground arith

one_more : (n m : ℕ) → (n == 30) ≡ false → n ≤ 30 → m ≡ n + 1 → m ≤ 30
one_more n m room h e = ground arith

module _ (client : Client) (policy : RoundPolicy) (params : RoundParams) (mints : Mints) where
  -- The mint's account is owned by the token program, and `vetMintData` accepts its data without a freeze
  -- authority and within the limit on transfer fees.
  abbrev pub IsVetted : (mint token_program : String) → Type 0
  IsVetted mint token_program =
      (info : MintInfo) × (mints.info mint ≡ some info)
      × (info.owner ≡ token_program)
      × (vet_mint_data mints.token_program mints.token_2022_program info.bytes info.owner (record {
        allow_freeze_authority = false;
        max_transfer_fee_bps = params.max_transfer_fee_bps;
      })
          ≡ accepted)

  is_accepted-eq-true :
      (result : MintVetResult) → is_accepted client policy params result ≡ true → result ≡ accepted
  unfolding is_accepted
  is_accepted-eq-true accepted h = refl
  is_accepted-eq-true (refused why) h = cc

  is_vetted-IsVetted :
      (mint token_program : String)
      → is_vetted client policy params mints mint token_program ≡ true
      → IsVetted mint token_program
  unfolding is_vetted
  is_vetted-IsVetted mint token_program h = elim (Option-cases (mints.info mint)) [
    | inl absent ↦ let h = rw (absent, is_vetted) at h in cc
    | inr (info, found) ↦ elim (Bool-cases (str_eq info.owner token_program)) [
      | inr other ↦ let h = rw other at (rw (found, is_vetted) at h) in cc
      | inl same ↦ (
        info,
        found,
        (eq_iff info.owner token_program).0 same,
        is_accepted-eq-true _ (rw same at (rw (found, is_vetted) at h)),
      )
    ]
  ]

  pub IsVetted-is_vetted :
      (mint token_program : String)
      → IsVetted mint token_program
      → is_vetted client policy params mints mint token_program ≡ true
  unfolding is_vetted is_accepted
  IsVetted-is_vetted mint token_program (info, found, owned, passes) =
      rw (found, is_vetted) (rw ((eq_iff info.owner token_program).1 owned) (rw passes refl))

  -- Its mint is one that the program accepts, owned by the token program on record; and all that the
  -- inventory held of it waits to be sent.
  abbrev pub IsReserved : FundedAsset → Type 0
  IsReserved a = IsVetted a.mint a.token_program × (is_pending a ≡ true) × (0 < a.fund_amount)

  -- At most 30 assets, all of them reserved.
  abbrev pub IsBasket : List FundedAsset → Type 0
  IsBasket assets = All IsReserved assets × (length assets ≤ 30)

  module _ (bought : List PurchaseRecord) where
    reserve_mint-IsBasket :
        (mint : String) (assets : List FundedAsset) (s : KeeperState)
        {after : List FundedAsset × KeeperState}
        → (length assets == 30) ≡ false
        → IsBasket assets
        → reserve_mint client policy params mints bought mint (assets, s) ≡ ok after
        → IsBasket after.0
    unfolding reserve_mint reserve_entry reserved_asset
    reserve_mint-IsBasket mint assets s room h e = elim (Option-cases (lookup mint s.inventory)) [
      | inl absent ↦ subst (λ a. IsBasket a.0) (ok-inj (rw (absent, reserve_mint) at e)) h
      | inr (entry, found) ↦
          elim (Bool-cases (
            (entry.amount == 0)
            || not (is_vetted client policy params mints mint entry.token_program))) [
              | inl out ↦
                  subst (λ a. IsBasket a.0) (ok-inj (rw out at (rw (found, reserve_mint) at e))) h
              | inr in_hand ↦
                  let (net, answered, last) =
                    >>=-eq-ok
                      (ask (client.net_after_transfer_fee mint entry.token_program entry.amount)) _
                      (rw in_hand at (rw (found, reserve_mint) at e)) in
                  let free = passed entry.amount _ in_hand in
                  let new = reserved_asset client policy params bought mint entry net in
                  subst (λ a. IsBasket a.0) (ok-inj last)
                    (
                      All-append IsReserved assets (new ∷ []) h.0
                          ((is_vetted-IsVetted mint entry.token_program free.0, refl, free.1), tt),
                      one_more (length assets) _ room h.1 (length-append assets (new ∷ [])),
                    )
            ]
    ]

    reserve_mints-IsBasket :
        (todo : List String) (assets : List FundedAsset) (s : KeeperState)
        {after : List FundedAsset × KeeperState}
        → IsBasket assets
        → reserve_mints client policy params mints bought todo (assets, s) ≡ ok after
        → IsBasket after.0
    unfolding reserve_mints
    reserve_mints-IsBasket [] assets s h e = subst (λ a. IsBasket a.0) (ok-inj e) h
    reserve_mints-IsBasket (mint ∷ todo) assets s h e =
        elim (Bool-cases (length assets == max_assets_per_round)) [
          | inl full ↦ subst (λ a. IsBasket a.0) (ok-inj (rw full at e)) h
          | inr room ↦
              let (mid, first, more) =
                >>=-eq-ok (reserve_mint client policy params mints bought mint (assets, s)) _
                  (rw room at e) in
              reserve_mints-IsBasket todo mid.0 mid.1
                (reserve_mint-IsBasket mint assets s room h first) more
        ]

  -- A round whose assets are reserved is funded, with at most 30 of them; each is a mint that passed
  -- the test, under the token program on record, and its reservation is pending and not empty.
  pub reserve_assets-IsBasket :
      (round : ActiveRound) (s : KeeperState) {after : KeeperState} {report : Report}
      → reserve_assets client policy params (ok mints) round s ≡ ok (after, report)
      → (assets : List FundedAsset) × (after.round
          ≡ some (record round { assets = some assets; status = RoundStatus.funded }))
        × IsBasket assets
  unfolding reserve_assets
  reserve_assets-IsBasket round s h =
      let bought = filter is_bought (or_empty round.purchases) in
      let todo = mints_of client policy params bought s.inventory in
      let (mid, run, last) =
        >>=-eq-ok (reserve_mints client policy params mints bought todo ([], s)) _ h in
      (
        mid.0,
        ap (λ r. r.0.round) (ok-inj (sym last)),
        reserve_mints-IsBasket bought todo [] s (tt, omega arith) run,
      )
