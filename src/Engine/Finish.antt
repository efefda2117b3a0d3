-- ===== src/Engine/Finish.antt =====
-- How keeper/round/engine.ts gives reservations back and ends a paying round.
pub mod Kept
pub mod Safe
use stonkfolio.Prelude.{
  ℕ, List, [], ◌∷◌, Option, none, some, Bool, true, false, not, filter, ◌==◌, if◌then◌else◌,
}
use stonkfolio.Ledger.{reconcile_reserve}
use stonkfolio.Store.{KeeperState, ActiveRound, FundedAsset, FundStatus, credit_inventory}
use stonkfolio.Engine.{Report, worked}
use stonkfolio.Engine.Opening.{or_zero}

-- `value ?? []`
abbrev pub or_empty {ℓ} : {A : Type ℓ} → Option (List A) → List A
or_empty none = []
or_empty (some xs) = xs

abbrev pub is_pending : FundedAsset → Bool
is_pending a = elim a.status [ FundStatus.pending ↦ true | _ ↦ false ]

-- The asset after it, and the state with a pending reservation back in the inventory.
unfoldable pub release_reservation :
    FundStatus → FundedAsset → KeeperState → FundedAsset × KeeperState
unfolding credit_inventory
release_reservation status a s = (
  record a { status = status },
  if is_pending a then credit_inventory a.mint a.token_program a.fund_amount s else s,
)

-- `for (const asset of assets) if (test) this.releaseReservation(state, asset, "released")`
unfoldable pub release_where :
    (FundedAsset → Bool) → List FundedAsset → KeeperState → List FundedAsset × KeeperState
unfolding release_reservation
release_where test [] s = ([], s)
release_where test (a ∷ rest) s =
    let (a', s') = if test a then release_reservation FundStatus.released a s else (a, s) in
    let (rest', end) = release_where test rest s' in (a' ∷ rest', end)

-- `rounds.filter((r) => r.roundId !== id)`
abbrev pub without_round : (id : ℕ) → List ActiveRound → List ActiveRound
without_round id rounds = filter (λ r. not (r.round_id == id)) rounds

unfoldable pub finish_paying : ActiveRound → KeeperState → KeeperState × Report
unfolding release_where reconcile_reserve
finish_paying round s =
    let (assets, released) = release_where is_pending (or_empty round.assets) s in
    let settled =
      reconcile_reserve (or_zero round.operations_reserve_lamports) round.operations_spent_lamports
        released.ledger in
    (
      record released {
        ledger = settled.ledger;
        paying = without_round round.round_id released.paying;
      },
      worked,
    )
