-- ===== src/Engine/Finish/Safe.antt =====
-- Well-formed states of keeper/round/engine.ts under ending a round, adding one to the paying
-- rounds and writing one back.
use stonkfolio.Prelude.{
  ℕ, ◌≡◌, ◌==◌, List, [], ◌∷◌, ◌++◌, Option, none, some, true, false, subst, sym, arith, Bool-cases,
  inl, inr,
}
use stonkfolio.Store.{KeeperState, ActiveRound}
use stonkfolio.Engine.Safe.{IsWellFormed, Collects, Pays, may_pay}
use stonkfolio.Engine.Finish.{without_round, release_where, finish_paying, or_empty, is_pending}
use stonkfolio.Engine.Finish.Kept.{Unlisted, DistinctIds, release_where_lem}

without_round-Unlisted_kept :
    (id dropped : ℕ) (rounds : List ActiveRound)
    → Unlisted id rounds
    → Unlisted id (without_round dropped rounds)
unfolding Unlisted
without_round-Unlisted_kept id dropped [] u = tt
without_round-Unlisted_kept id dropped (r ∷ rest) u = elim (Bool-cases (r.round_id == dropped)) [
  | inl e ↦ rw e (without_round-Unlisted_kept id dropped rest u.1)
  | inr e ↦ rw e (u.0, without_round-Unlisted_kept id dropped rest u.1)
]

pub without_round-Pays :
    (dropped : ℕ) (rounds : List ActiveRound) → Pays rounds → Pays (without_round dropped rounds)
unfolding DistinctIds
without_round-Pays dropped [] h = h
without_round-Pays dropped (r ∷ rest) h =
    let later = without_round-Pays dropped rest (h.0.1, h.1.1) in
    elim (Bool-cases (r.round_id == dropped)) [
      | inl e ↦ rw e later
      | inr e ↦
          rw e
            ((h.0.0, later.0), (without_round-Unlisted_kept r.round_id dropped rest h.1.0, later.1))
    ]

without_round-Collects :
    (dropped : ℕ) (round : Option ActiveRound) (paying : List ActiveRound)
    → Collects round paying
    → Collects round (without_round dropped paying)
without_round-Collects dropped none paying c = tt
without_round-Collects dropped (some r) paying c =
    (c.0, without_round-Unlisted_kept r.round_id dropped paying c.1)

-- A finished round leaves a well-formed state.
pub finish_paying-IsWellFormed :
    (round : ActiveRound) (s : KeeperState)
    → IsWellFormed s
    → IsWellFormed (finish_paying round s).0
unfolding finish_paying
finish_paying-IsWellFormed round s w =
    let given = release_where_lem "" is_pending (or_empty round.assets) s in
    subst
      (λ r.
        Collects r (
          without_round round.round_id
            (release_where is_pending (or_empty round.assets) s).1.paying)
        × Pays (
            without_round round.round_id
              (release_where is_pending (or_empty round.assets) s).1.paying))
      (sym given.1)
      (subst
        (λ paying.
          Collects s.round (without_round round.round_id paying)
          × Pays (without_round round.round_id paying))
        (sym given.2)
        (
          without_round-Collects round.round_id s.round s.paying w.0,
          without_round-Pays round.round_id s.paying w.1,
        ))

append-Unlisted :
    (id : ℕ) (rounds : List ActiveRound) (r : ActiveRound)
    → Unlisted id rounds
    → (r.round_id == id) ≡ false
    → Unlisted id (rounds ++ r ∷ [])
unfolding Unlisted
append-Unlisted id [] r u e = (e, tt)
append-Unlisted id (q ∷ rest) r u e = (u.0, append-Unlisted id rest r u.1 e)

-- A round of a new id joins the paying rounds.
pub append-Pays :
    (rounds : List ActiveRound) (r : ActiveRound)
    → Pays rounds
    → Unlisted r.round_id rounds
    → may_pay r.status ≡ true
    → Pays (rounds ++ r ∷ [])
unfolding DistinctIds Unlisted
append-Pays [] r h u e = ((e, tt), (tt, tt))
append-Pays (q ∷ rest) r h u e =
    let later = append-Pays rest r (h.0.1, h.1.1) u.1 e in
    let apart : (r.round_id == q.round_id) ≡ false = ground (arith, u.0) in
    ((h.0.0, later.0), (append-Unlisted q.round_id rest r h.1.0 apart, later.1))
