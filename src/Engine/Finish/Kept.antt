-- ===== src/Engine/Finish/Kept.antt =====
-- The basket tokens that a coin's state accounts for: the inventory and the pending reservations of its
-- rounds in keeper/round/engine.ts; and what releasing reservations does to them.
use Prim.Native.String.{String}
use stonkfolio.Prelude.{
  ℕ, ◌+◌, ◌≡◌, List, [], ◌∷◌, Option, none, some, if◌then◌else◌, Bool, true, false, ◌==◌, arith,
  refl, ap, sym, subst, ◌∙◌, Bool-cases, inl, inr,
}
use stonkfolio.Prelude.Maps.{lookup}
use stonkfolio.Store.{KeeperState, ActiveRound, FundedAsset, amount_held, credit_inventory}
use stonkfolio.Store.Inventory.{for_mint, credit_inventory_lem, credit_inventory-rest}
use stonkfolio.Engine.Finish.{
  or_empty, is_pending, release_reservation, release_where, without_round, finish_paying,
}

-- What the pending reservations hold of a mint.
unfoldable pub reserved : (asked : String) → List FundedAsset → ℕ
reserved asked [] = 0
reserved asked (a ∷ rest) =
    (if is_pending a then for_mint asked a.mint a.fund_amount else 0) + reserved asked rest

abbrev pub reserved_by : (asked : String) → ActiveRound → ℕ
unfolding reserved
reserved_by asked round = reserved asked (or_empty round.assets)

unfoldable pub reserved_by_all : (asked : String) → List ActiveRound → ℕ
unfolding reserved
reserved_by_all asked [] = 0
reserved_by_all asked (r ∷ rest) = reserved_by asked r + reserved_by_all asked rest

abbrev pub reserved_by_option : (asked : String) → Option ActiveRound → ℕ
unfolding reserved
reserved_by_option asked none = 0
reserved_by_option asked (some r) = reserved_by asked r

-- All that is accounted for of a mint.
unfoldable pub tokens : (asked : String) → KeeperState → ℕ
unfolding amount_held reserved reserved_by_all
tokens asked s =
    amount_held asked s.inventory
    + reserved_by_option asked s.round
    + reserved_by_all asked s.paying

-- What a release gives to the inventory it takes from the reservations, and it touches nothing else.
pub release_where_lem :
    (asked : String) (test : FundedAsset → Bool) (assets : List FundedAsset) (s : KeeperState)
    → (amount_held asked (release_where test assets s).1.inventory
          + reserved asked (release_where test assets s).0
        ≡ amount_held asked s.inventory + reserved asked assets)
      × ((release_where test assets s).1.round ≡ s.round)
      × ((release_where test assets s).1.paying ≡ s.paying)
unfolding release_where release_reservation reserved amount_held
release_where_lem asked test [] s = (refl, refl, refl)
release_where_lem asked test (a ∷ rest) s = elim (Bool-cases (test a)) [
  | inl e ↦ rw e (elim (Bool-cases (is_pending a)) [
    | inl p ↦ rw p (
        let credited = credit_inventory a.mint a.token_program a.fund_amount s in
        let later = release_where_lem asked test rest credited in
        let same = credit_inventory-rest a.mint a.token_program a.fund_amount s in
        (
          omega (arith, later.0, credit_inventory_lem asked a.mint a.token_program a.fund_amount s),
          later.1 ∙ same.1,
          later.2 ∙ same.2,
        ))
    | inr p ↦ rw p (
        let later = release_where_lem asked test rest s in
        (omega (arith, later.0), later.1, later.2))
  ])
  | inr e ↦ rw e (
      let later = release_where_lem asked test rest s in (omega (arith, later.0), later.1, later.2))
]

-- Nothing stays reserved where all that is pending is released.
released_all :
    (asked : String) (assets : List FundedAsset) (s : KeeperState)
    → reserved asked (release_where is_pending assets s).0 ≡ 0
unfolding release_where release_reservation reserved
released_all asked [] s = refl
released_all asked (a ∷ rest) s = elim (Bool-cases (is_pending a)) [
  | inl p ↦ rw p (
      let credited = credit_inventory a.mint a.token_program a.fund_amount s in
      omega (arith, released_all asked rest credited))
  | inr p ↦ rw p (rw p (omega (arith, released_all asked rest s)))
]

-- No round of the list has the id.
unfoldable pub Unlisted : (id : ℕ) → List ActiveRound → Type 0
Unlisted id [] = Unit
Unlisted id (r ∷ rest) = ((r.round_id == id) ≡ false) × Unlisted id rest

pub without_round-Unlisted :
    (id : ℕ) (rounds : List ActiveRound) → Unlisted id rounds → without_round id rounds ≡ rounds
unfolding Unlisted
without_round-Unlisted id [] h = refl
without_round-Unlisted id (r ∷ rest) h = rw h.0 (ap (◌∷◌ r) (without_round-Unlisted id rest h.1))

-- No two rounds of the list have one id.
unfoldable pub DistinctIds : List ActiveRound → Type 0
unfolding Unlisted
DistinctIds [] = Unit
DistinctIds (r ∷ rest) = Unlisted r.round_id rest × DistinctIds rest

-- The round stands in the list.
pub data Listed (round : ActiveRound) : List ActiveRound → Type 0 where
  here : {rest : List ActiveRound} → Listed round (round ∷ rest)
  later : {r : ActiveRound} {rest : List ActiveRound} → Listed round rest → Listed round (r ∷ rest)

Listed-Unlisted :
    {round : ActiveRound} (id : ℕ) {rounds : List ActiveRound}
    → Listed round rounds
    → Unlisted id rounds
    → (round.round_id == id) ≡ false
unfolding Unlisted
Listed-Unlisted id here h = h.0
Listed-Unlisted id (later l) h = Listed-Unlisted id l h.1

pub ==-same : (n : ℕ) → (n == n) ≡ true
==-same n = ground arith

-- Taking a round off the list takes its reservations.
pub reserved_by_all-without_round :
    (asked : String) {round : ActiveRound} {rounds : List ActiveRound}
    → Listed round rounds
    → DistinctIds rounds
    → reserved_by_all asked (without_round round.round_id rounds) + reserved_by asked round
      ≡ reserved_by_all asked rounds
unfolding reserved_by_all DistinctIds
reserved_by_all-without_round asked {round} (here {rest}) d =
    rw (==-same round.round_id) (rw (without_round-Unlisted round.round_id rest d.0) (omega arith))
reserved_by_all-without_round asked {round} (later {r} {rest} l) d =
    let other : (r.round_id == round.round_id) ≡ false =
      ground (arith, Listed-Unlisted r.round_id l d.0) in
    rw other (omega (arith, reserved_by_all-without_round asked l d.1))

-- The state after a round is finished.
pub finish_paying-parts :
    (asked : String) (round : ActiveRound) (s : KeeperState)
    → (amount_held asked (finish_paying round s).0.inventory
        ≡ amount_held asked s.inventory + reserved_by asked round)
      × ((finish_paying round s).0.round ≡ s.round)
      × ((finish_paying round s).0.paying ≡ without_round round.round_id s.paying)
unfolding finish_paying reserved_by lookup
finish_paying-parts asked round s =
    let assets = or_empty round.assets in
    let given = release_where_lem asked is_pending assets s in
    (
      omega (arith, given.0, released_all asked assets s),
      given.1,
      ap (without_round round.round_id) given.2,
    )

without_round-leaves : (id : ℕ) (rounds : List ActiveRound) → Unlisted id (without_round id rounds)
unfolding Unlisted
without_round-leaves id [] = tt
without_round-leaves id (r ∷ rest) = elim (Bool-cases (r.round_id == id)) [
  | inl same ↦ rw same (without_round-leaves id rest)
  | inr other ↦ rw other (other, without_round-leaves id rest)
]

-- A finished round, where it is the only paying round of its id, gives all that it still reserves of each
-- mint to the inventory and is no longer among the paying rounds; and what is accounted for of each mint
-- stays the same.
pub finish_paying-tokens :
    (asked : String) (round : ActiveRound) (s : KeeperState)
    → Listed round s.paying
    → DistinctIds s.paying
    → (amount_held asked (finish_paying round s).0.inventory
        ≡ amount_held asked s.inventory + reserved_by asked round)
      × Unlisted round.round_id (finish_paying round s).0.paying
      × (tokens asked (finish_paying round s).0 ≡ tokens asked s)
unfolding tokens
finish_paying-tokens asked round s l d =
    let parts = finish_paying-parts asked round s in
    let option = ap (reserved_by_option asked) parts.1 in
    let others = ap (reserved_by_all asked) parts.2 in
    (
      parts.0,
      subst (Unlisted round.round_id) (sym parts.2) (without_round-leaves round.round_id s.paying),
      omega (arith, parts.0, option, others, reserved_by_all-without_round asked l d),
    )
