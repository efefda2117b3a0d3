-- ===== src/Engine/Reserve/Taken.antt =====
-- Which entries of the inventory keeper/round/engine.ts reserves.
use Prim.Native.String.{String}
use text.Mathlib.Text.{◌==◌ as str_eq}
use text.Mathlib.TextEquality.{eq_iff}
use stonkfolio.Prelude.{
  ℕ, zero, suc, ◌+◌, ◌≤◌, ◌≡◌, ◌∙◌, ◌⊎◌, ◌||◌, List, [], ◌∷◌, ◌++◌, map, filter, take, length, true,
  false, not, some, ◌==◌, arith, refl, ap, sym, ltb, length-map, length-append, length-filter-le,
  Bool-cases, Option-cases, inl, inr, ok, ok-inj, >>=-eq-ok,
}
use stonkfolio.Prelude.Sort.{sort_by, length-sort_by}
use stonkfolio.Prelude.Entries.{has-sort_by}
use stonkfolio.Prelude.Maps.{lookup, has}
use stonkfolio.Round.Policy.{RoundPolicy}
use stonkfolio.Store.{
  KeeperState, ActiveRound, RoundStatus, FundedAsset, PurchaseRecord, InventoryEntry, amount_held,
  delete_entry,
}
use stonkfolio.Store.Inventory.{delete_entry_lem}
use stonkfolio.Engine.{ask, Client, RoundParams, Report}
use stonkfolio.Engine.Finish.{or_empty}
use stonkfolio.Engine.Reserve.{
  Mints, reserve_entry, reserve_mint, reserve_mints, reserve_assets, is_vetted, is_bought, mints_of,
  max_assets_per_round, unique, held_mints,
}
use stonkfolio.Engine.Reserve.Vetted.{IsVetted, IsVetted-is_vetted}
use stonkfolio.Engine.Reserve.Kept.{reserve_mints-Moves}

is_number : (n m : ℕ) → (m == n) ≡ true → m ≡ n
is_number n m h = ground (arith, h)

-- Another entry is found as before a removal.
lookup-delete_entry :
    (mint asked : String) (inventory : List (String × InventoryEntry))
    → str_eq mint asked ≡ false
    → lookup asked (delete_entry mint inventory) ≡ lookup asked inventory
unfolding delete_entry lookup
lookup-delete_entry mint asked [] other = refl
lookup-delete_entry mint asked (e ∷ rest) other = elim (Bool-cases (str_eq mint e.0)) [
  | inl gone ↦
      let apart : str_eq e.0 asked ≡ false = ground (arith, eq_iff mint e.0, gone, other) in
      rw (gone, apart) (lookup-delete_entry mint asked rest other)
  | inr kept ↦ rw kept (elim (Bool-cases (str_eq e.0 asked)) [
    | inl found ↦ rw found refl
    | inr apart ↦ rw apart (lookup-delete_entry mint asked rest other)
  ])
]

module _ (client : Client) (policy : RoundPolicy) (params : RoundParams) (mints : Mints)
    (bought : List PurchaseRecord) (asked : String) where
  -- The turn of another mint.
  reserve_mint-other :
      (mint : String) (assets : List FundedAsset) (s : KeeperState)
      {after : List FundedAsset × KeeperState}
      → str_eq mint asked ≡ false
      → reserve_mint client policy params mints bought mint (assets, s) ≡ ok after
      → lookup asked after.1.inventory ≡ lookup asked s.inventory
  unfolding reserve_mint reserve_entry
  reserve_mint-other mint assets s other h = elim (Option-cases (lookup mint s.inventory)) [
    | inl absent ↦
        ap (λ a. lookup asked a.1.inventory) (sym (ok-inj (rw (absent, reserve_mint) at h)))
    | inr (entry, found) ↦
        elim (Bool-cases (
          (entry.amount == 0)
          || not (is_vetted client policy params mints mint entry.token_program))) [
            | inl out ↦
                ap (λ a. lookup asked a.1.inventory)
                  (sym (ok-inj (rw out at (rw (found, reserve_mint) at h))))
            | inr in_hand ↦
                let (net, answered, e) =
                  >>=-eq-ok
                    (ask (client.net_after_transfer_fee mint entry.token_program entry.amount)) _
                    (rw in_hand at (rw (found, reserve_mint) at h)) in
                ap (λ a. lookup asked a.1.inventory) (sym (ok-inj e))
                ∙ lookup-delete_entry mint asked s.inventory other
          ]
  ]

  -- The turn of the mint itself.
  reserve_mint-takes :
      (assets : List FundedAsset) (s : KeeperState) (entry : InventoryEntry)
      {after : List FundedAsset × KeeperState}
      → lookup asked s.inventory ≡ some entry
      → is_vetted client policy params mints asked entry.token_program ≡ true
      → reserve_mint client policy params mints bought asked (assets, s) ≡ ok after
      → amount_held asked after.1.inventory ≡ 0
  unfolding reserve_mint reserve_entry amount_held
  reserve_mint-takes assets s entry found vetted h = elim (Bool-cases (entry.amount == 0)) [
    | inl nothing ↦
        let holds : amount_held asked s.inventory ≡ entry.amount = rw (found, amount_held) refl in
        let same = ok-inj (rw nothing at (rw (found, reserve_mint) at h)) in
        ap (λ a. amount_held asked a.1.inventory) (sym same) ∙ holds ∙ is_number 0 _ nothing
    | inr something ↦
        let (net, answered, e) =
          >>=-eq-ok (ask (client.net_after_transfer_fee asked entry.token_program entry.amount)) _
            (rw vetted at (rw something at (rw (found, reserve_mint) at h))) in
        let itself : str_eq asked asked ≡ true = ground (arith, eq_iff asked asked) in
        ap (λ a. amount_held asked a.1.inventory) (sym (ok-inj e))
        ∙ (rw itself at (delete_entry_lem asked asked s.inventory))
  ]

  reserve_mints-takes :
      (todo : List String) (assets : List FundedAsset) (s : KeeperState) (entry : InventoryEntry)
      {after : List FundedAsset × KeeperState}
      → lookup asked s.inventory ≡ some entry
      → is_vetted client policy params mints asked entry.token_program ≡ true
      → has asked todo ≡ true
      → reserve_mints client policy params mints bought todo (assets, s) ≡ ok after
      → (amount_held asked after.1.inventory ≡ 0) ⊎ (length after.0 ≡ 30)
  unfolding reserve_mints has
  reserve_mints-takes [] assets s entry found vetted listed h = cc
  reserve_mints-takes (mint ∷ todo) assets s entry found vetted listed h =
      elim (Bool-cases (length assets == max_assets_per_round)) [
        | inl full ↦ inr (ap (λ a. length a.0) (sym (ok-inj (rw full at h))) ∙ is_number 30 _ full)
        | inr room ↦
            let (mid, first, more) =
              >>=-eq-ok (reserve_mint client policy params mints bought mint (assets, s)) _
                (rw room at h) in
            elim (Bool-cases (str_eq mint asked)) [
              | inl same ↦
                  let is_asked : mint ≡ asked = (eq_iff mint asked).0 same in
                  let gone =
                    reserve_mint-takes assets s entry found vetted (rw is_asked at first) in
                  inl
                    (elim ((reserve_mints-Moves client policy params mints bought asked todo mid.0
                      mid.1 more).3) [ inl stays ↦ stays ∙ gone | inr goes ↦ goes ])
              | inr other ↦
                  reserve_mints-takes todo mid.0 mid.1 entry
                    (reserve_mint-other mint assets s other first ∙ found) vetted
                    (rw other at listed) more
            ]
      ]

has-append : (k : String) (xs ys : List String) → has k ys ≡ true → has k (xs ++ ys) ≡ true
unfolding has
has-append k [] ys h = h
has-append k (x ∷ xs) ys h = ground (arith, has-append k xs ys h)

has-unique :
    (k : String) (seen xs : List String)
    → has k seen ≡ false
    → has k xs ≡ true
    → has k (unique seen xs) ≡ true
unfolding unique has
has-unique k seen [] n h = h
has-unique k seen (x ∷ xs) n h = elim (Bool-cases (str_eq x k)) [
  | inl same ↦
      let fresh : has x seen ≡ false = rw ((eq_iff x k).0 same) n in rw fresh (rw same refl)
  | inr other ↦
      let later = rw other at h in
      elim (Bool-cases (has x seen)) [
        | inl old ↦ rw old (has-unique k seen xs n later)
        | inr fresh ↦ rw fresh (rw other (has-unique k (x ∷ seen) xs (rw other n) later))
      ]
]

length-unique : (seen xs : List String) → length (unique seen xs) ≤ length xs
unfolding unique
length-unique seen [] = omega arith
length-unique seen (x ∷ xs) = elim (Bool-cases (has x seen)) [
  | inl old ↦ rw old (omega (arith, length-unique seen xs))
  | inr fresh ↦ rw fresh (omega (arith, length-unique (x ∷ seen) xs))
]

take_all : (n : ℕ) (xs : List String) → length xs ≤ n → take n xs ≡ xs
take_all zero [] h = refl
take_all zero (x ∷ xs) h = absurd (omega (arith, h))
take_all (suc n) [] h = refl
take_all (suc n) (x ∷ xs) h = ap (x ∷◌) (take_all n xs (omega (arith, h)))

lookup-has :
    (k : String) (inventory : List (String × InventoryEntry)) {entry : InventoryEntry}
    → lookup k inventory ≡ some entry
    → has k (map (λ e. e.0) inventory) ≡ true
unfolding lookup has
lookup-has k [] h = cc
lookup-has k (e ∷ rest) h = elim (Bool-cases (str_eq e.0 k)) [
  | inl same ↦ rw same refl
  | inr other ↦ rw other (lookup-has k rest (rw other at h))
]

module _ (client : Client) (policy : RoundPolicy) (params : RoundParams) where
  mints_of-has :
      (asked : String) (bought : List PurchaseRecord) (inventory : List (String × InventoryEntry))
      {entry : InventoryEntry}
      → lookup asked inventory ≡ some entry
      → length bought + length inventory ≤ 100
      → has asked (mints_of client policy params bought inventory) ≡ true
  unfolding mints_of held_mints
  mints_of-has asked bought inventory found few =
      let larger = λ (a b : String × InventoryEntry). not (ltb a.1.amount b.1.amount) in
      let names = map (λ (p : PurchaseRecord). p.mint) bought in
      let held = map (λ (e : String × InventoryEntry). e.0) (sort_by larger inventory) in
      let sized : length held ≡ length inventory =
        length-map (λ (e : String × InventoryEntry). e.0) (sort_by larger inventory)
        ∙ length-sort_by larger inventory in
      let listed : has asked held ≡ true =
        has-sort_by larger (λ e. e.0) asked inventory ∙ lookup-has asked inventory found in
      rw
        (take_all 100 (unique [] (names ++ held)) (
          omega (
            arith,
            few,
            sized,
            length-unique [] (names ++ held),
            length-append names held,
            length-map (λ (p : PurchaseRecord). p.mint) bought,
          )))
        (has-unique asked [] (names ++ held) refl (has-append asked names held listed))

  -- Where the round's purchases and the coin's entries are a hundred at most together and the assets are
  -- reserved, an entry whose mint is vetted under the token program on record is taken from the inventory
  -- whole, unless the round has its thirty assets.
  pub reserve_assets-takes :
      (mints : Mints) (asked : String) (round : ActiveRound) (s : KeeperState)
      (entry : InventoryEntry) {after : KeeperState} {report : Report}
      → lookup asked s.inventory ≡ some entry
      → IsVetted client policy params mints asked entry.token_program
      → length (or_empty round.purchases) + length s.inventory ≤ 100
      → reserve_assets client policy params (ok mints) round s ≡ ok (after, report)
      → (amount_held asked after.inventory ≡ 0)
        ⊎ ((assets : List FundedAsset) × (after.round
              ≡ some (record round { assets = some assets; status = RoundStatus.funded }))
            × (length assets ≡ 30))
  unfolding reserve_assets amount_held
  reserve_assets-takes mints asked round s entry found vetted few h =
      let bought = filter is_bought (or_empty round.purchases) in
      let todo = mints_of client policy params bought s.inventory in
      let (mid, run, last) =
        >>=-eq-ok (reserve_mints client policy params mints bought todo ([], s)) _ h in
      let fewer = length-filter-le is_bought (or_empty round.purchases) in
      elim (reserve_mints-takes client policy params mints bought asked todo [] s entry found
        (IsVetted-is_vetted client policy params mints asked entry.token_program vetted)
        (mints_of-has asked bought s.inventory found (omega (arith, few, fewer))) run) [
          | inl gone ↦ inl (ap (λ r. amount_held asked r.0.inventory) (sym (ok-inj last)) ∙ gone)
          | inr full ↦ inr (mid.0, ap (λ r. r.0.round) (sym (ok-inj last)), full)
        ]
