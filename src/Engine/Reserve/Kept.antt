-- ===== src/Engine/Reserve/Kept.antt =====
-- What reserving assets in keeper/round/engine.ts does to the basket tokens that the coin accounts for.
use Prim.Native.String.{String}
use text.Mathlib.Text.{◌==◌ as str_eq}
use text.Mathlib.TextEquality.{eq_iff}
use stonkfolio.Prelude.{
  ℕ, ◌+◌, ◌≡◌, ◌⊎◌, List, [], ◌∷◌, ◌++◌, none, some, not, ◌==◌, ◌||◌, arith, refl, ap, subst, ◌∙◌,
  Bool-cases, Option-cases, inl, inr, ok, ok-inj, >>=-eq-ok, length, filter,
}
use stonkfolio.Prelude.Maps.{lookup}
use stonkfolio.Round.Policy.{RoundPolicy}
use stonkfolio.Store.{
  KeeperState, ActiveRound, FundedAsset, amount_held, PurchaseRecord, InventoryEntry, delete_entry,
}
use stonkfolio.Store.Inventory.{delete_entry_lem}
use stonkfolio.Engine.{Answer, ask, Client, RoundParams, Report}
use stonkfolio.Engine.Finish.{or_empty}
use stonkfolio.Engine.Finish.Kept.{
  reserved, reserved_by, reserved_by_all, reserved_by_option, tokens,
}
use stonkfolio.Engine.Reserve.{
  Mints, reserve_entry, reserve_mint, reserve_mints, reserve_assets, reserved_asset, is_vetted,
  is_bought, mints_of, max_assets_per_round,
}

reserved-append :
    (asked : String) (xs ys : List FundedAsset)
    → reserved asked (xs ++ ys) ≡ reserved asked xs + reserved asked ys
unfolding reserved
reserved-append asked [] ys = omega arith
reserved-append asked (x ∷ xs) ys = omega (arith, reserved-append asked xs ys)

-- What both the inventory and the assets reserved so far hold of a mint.
abbrev pub held : (asked : String) → List FundedAsset × KeeperState → ℕ
unfolding amount_held reserved
held asked (assets, s) = amount_held asked s.inventory + reserved asked assets

module _ (client : Client) (policy : RoundPolicy) (params : RoundParams) where
  module _ (mints : Mints) (bought : List PurchaseRecord) (asked : String) where
    -- One turn moves an entry whole, or nothing.
    abbrev pub Moves : List FundedAsset × KeeperState → List FundedAsset × KeeperState → Type 0
    Moves before after =
        (held asked after ≡ held asked before)
        × (after.1.round ≡ before.1.round)
        × (after.1.paying ≡ before.1.paying)
        × ((amount_held asked after.1.inventory ≡ amount_held asked before.1.inventory)
            ⊎ (amount_held asked after.1.inventory ≡ 0))

    -- What the entry held is what the new reservation holds.
    entry_moves :
        (mint : String) (entry : InventoryEntry) (net : ℕ) (assets : List FundedAsset)
        (inventory : List (String × InventoryEntry))
        → lookup mint inventory ≡ some entry
        → amount_held asked (delete_entry mint inventory)
            + reserved asked
                (assets ++ reserved_asset client policy params bought mint entry net ∷ [])
          ≡ amount_held asked inventory + reserved asked assets
    unfolding amount_held reserved reserved_asset
    entry_moves mint entry net assets inventory found =
        let new = reserved_asset client policy params bought mint entry net in
        let kept = delete_entry_lem asked mint inventory in
        let appended = reserved-append asked assets (new ∷ []) in
        elim (Bool-cases (str_eq mint asked)) [
          | inl e ↦
              let same : mint ≡ asked = ground (arith, eq_iff mint asked) in
              let there : amount_held asked inventory ≡ entry.amount =
                subst (λ m. amount_held m inventory ≡ entry.amount) same
                  (rw (found, amount_held) refl) in
              omega (arith, rw e at kept, rw e at appended, there)
          | inr e ↦ omega (arith, rw e at kept, rw e at appended)
        ]

    emptied :
        (mint : String) (inventory : List (String × InventoryEntry))
        → (amount_held asked (delete_entry mint inventory) ≡ amount_held asked inventory)
          ⊎ (amount_held asked (delete_entry mint inventory) ≡ 0)
    emptied mint inventory =
        let kept = delete_entry_lem asked mint inventory in
        elim (Bool-cases (str_eq mint asked)) [
          | inl e ↦ inr (rw e at kept)
          | inr e ↦ inl (rw e at kept)
        ]

    reserve_entry-Moves :
        (mint : String) (entry : InventoryEntry) (assets : List FundedAsset) (s : KeeperState)
        {after : List FundedAsset × KeeperState}
        → lookup mint s.inventory ≡ some entry
        → reserve_entry client policy params mints bought mint entry (assets, s) ≡ ok after
        → Moves (assets, s) after
    unfolding reserve_entry held amount_held
    reserve_entry-Moves mint entry assets s found h =
        let (net, answered, e) =
          >>=-eq-ok (ask (client.net_after_transfer_fee mint entry.token_program entry.amount)) _
            h in
        subst (Moves (assets, s)) (ok-inj e) (
          entry_moves mint entry net assets s.inventory found,
          refl,
          refl,
          emptied mint s.inventory,
        )

    reserve_mint-Moves :
        (mint : String) (assets : List FundedAsset) (s : KeeperState)
        {after : List FundedAsset × KeeperState}
        → reserve_mint client policy params mints bought mint (assets, s) ≡ ok after
        → Moves (assets, s) after
    unfolding reserve_mint
    reserve_mint-Moves mint assets s h = elim (Option-cases (lookup mint s.inventory)) [
      | inl absent ↦
          subst (Moves (assets, s)) (ok-inj (rw (absent, reserve_mint) at h))
            (refl, refl, refl, inl refl)
      | inr (entry, found) ↦
          elim (Bool-cases (
            (entry.amount == 0)
            || not (is_vetted client policy params mints mint entry.token_program))) [
              | inl out ↦
                  subst (Moves (assets, s)) (ok-inj (rw out at (rw (found, reserve_mint) at h)))
                    (refl, refl, refl, inl refl)
              | inr in_hand ↦
                  reserve_entry-Moves mint entry assets s found
                    (rw in_hand at (rw (found, reserve_mint) at h))
            ]
    ]

    -- An amount that stays and then stays or goes, or that has gone, stayed or went.
    settled : {a b c : ℕ} → (b ≡ a) ⊎ (b ≡ 0) → (c ≡ b) ⊎ (c ≡ 0) → (c ≡ a) ⊎ (c ≡ 0)
    settled (inl e) (inl f) = inl (f ∙ e)
    settled (inr e) (inl f) = inr (f ∙ e)
    settled first (inr f) = inr f

    pub reserve_mints-Moves :
        (todo : List String) (assets : List FundedAsset) (s : KeeperState)
        {after : List FundedAsset × KeeperState}
        → reserve_mints client policy params mints bought todo (assets, s) ≡ ok after
        → Moves (assets, s) after
    unfolding reserve_mints
    reserve_mints-Moves [] assets s h =
        subst (Moves (assets, s)) (ok-inj h) (refl, refl, refl, inl refl)
    reserve_mints-Moves (mint ∷ todo) assets s {after} h =
        elim (Bool-cases (length assets == max_assets_per_round)) [
          | inl full ↦
              subst (Moves (assets, s)) (ok-inj (rw full at h)) (refl, refl, refl, inl refl)
          | inr room ↦
              let (mid, first, e) =
                >>=-eq-ok (reserve_mint client policy params mints bought mint (assets, s)) _
                  (rw room at h) in
              let one = reserve_mint-Moves mint assets s first in
              let more = reserve_mints-Moves todo mid.0 mid.1 e in
              (more.0 ∙ one.0, more.1 ∙ one.1, more.2 ∙ one.2, settled one.3 more.3)
        ]

  -- Reserving assets for the collecting round, which has none yet, keeps what is accounted for of each
  -- mint; and of each mint the inventory keeps all that it held, with nothing reserved, or all of it
  -- becomes reserved for the round.
  pub reserve_assets-tokens :
      (asked : String) (infos : Answer Mints) (round : ActiveRound) (s : KeeperState)
      {after : KeeperState} {report : Report}
      → s.round ≡ some round
      → round.assets ≡ none
      → reserve_assets client policy params infos round s ≡ ok (after, report)
      → (tokens asked after ≡ tokens asked s)
        × (((amount_held asked after.inventory ≡ amount_held asked s.inventory)
              × (reserved_by_option asked after.round ≡ 0))
            ⊎ ((amount_held asked after.inventory ≡ 0)
                × (reserved_by_option asked after.round ≡ amount_held asked s.inventory)))
  unfolding reserve_assets tokens reserved
  reserve_assets-tokens asked infos round s {after} current fresh h =
      let bought = filter is_bought (or_empty round.purchases) in
      let (mints, answered, e) = >>=-eq-ok (ask infos) _ h in
      let (mid, run, last) =
        >>=-eq-ok
          (reserve_mints client policy params mints bought
            (mints_of client policy params bought s.inventory) ([], s))
          _ e in
      let moved =
        reserve_mints-Moves mints bought asked (mints_of client policy params bought s.inventory) []
          s run in
      let none_reserved : reserved_by asked round ≡ 0 = rw fresh refl in
      let before = ap (reserved_by_option asked) current in
      let others = ap (reserved_by_all asked) moved.2 in
      let result = ap (λ r. tokens asked r.0) (ok-inj last) in
      let inventory = ap (λ r. amount_held asked r.0.inventory) (ok-inj last) in
      let round_after = ap (λ r. reserved_by_option asked r.0.round) (ok-inj last) in
      (
        omega (arith, result, moved.0, before, none_reserved, others),
        elim moved.3 [
          | inl stays ↦
              inl (omega (arith, stays, inventory), omega (arith, stays, moved.0, round_after))
          | inr goes ↦
              inr (omega (arith, goes, inventory), omega (arith, goes, moved.0, round_after))
        ],
      )
