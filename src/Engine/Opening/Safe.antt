-- ===== src/Engine/Opening/Safe.antt =====
-- Well-formed states of keeper/round/engine.ts under opening and abandoning a round.
use Prim.Native.String.{String}
use stonkfolio.Prelude.{ℕ, ◌≡◌, Option, none, some, Bool, true, false, ok, refl}
use stonkfolio.Send.{Rpc}
use stonkfolio.Store.{KeeperState, ActiveRound}
use stonkfolio.Engine.{Client, IntentView, with_round, mentions}
use stonkfolio.Engine.Costs.{charge_round, charge_basket}
use stonkfolio.Engine.Safe.{
  IsWellFormed, MayCollect, Pays, Safe, Kept, Safe-return, Safe-throw, Safe-if, Safe-option,
  Safe-answer, Safe-ask, Safe-save, Safe-confirm, Safe-bind,
}
use stonkfolio.Engine.Finish.Kept.{Unlisted}
use stonkfolio.Engine.Opening.{
  Secrets, fresh_round, abandon_orphan, start_round, open_round, charge_abandon, abandon_collecting,
}

module _ (client : Client) (rpc : Rpc) (keeper : String) where
  -- A charge changes neither the id nor the status of a round.
  pub charge_round-MayCollect :
      (signature : Option String) (round : ActiveRound) (paying : _)
      → MayCollect round paying
      → MayCollect (charge_round rpc keeper signature round) paying
  unfolding charge_round
  charge_round-MayCollect none round paying h = h
  charge_round-MayCollect (some signature) round paying h = h

  start_round-Safe :
      (round : ActiveRound) (s : KeeperState)
      → IsWellFormed (with_round round s)
      → Safe Kept (start_round client rpc keeper round s)
  unfolding start_round
  start_round-Safe round s w = Safe-bind (Safe-save (with_round round s) w) (λ saved u.
      Safe-bind (Safe-ask (client.open_round round.round_id round.commitment_hex)) (λ signature e.
        Safe-return _ (charge_round-MayCollect (some signature) round s.paying w.0, w.1)))

  abandon_orphan-Safe :
      (intent : IntentView) (s : KeeperState)
      → IsWellFormed s
      → Safe Kept (abandon_orphan client rpc keeper intent s)
  unfolding abandon_orphan
  abandon_orphan-Safe intent s w =
      Safe-answer (client.abandon_round intent.round_id)
        (λ text. Safe-if (mentions "CannotAbandon" text) (Safe-return _ w) (Safe-throw _ refl))
        (λ signature. Safe-return _ w)

  -- The id of a new round is none of those that are being paid.
  pub open_round-Safe :
      (secrets : Secrets) (now : ℕ) (s : KeeperState)
      → IsWellFormed s
      → ((id : ℕ) → client.next_round_id ≡ ok id → Unlisted id s.paying)
      → Safe Kept (open_round client rpc keeper secrets now s)
  unfolding open_round
  open_round-Safe secrets now s w fresh =
      Safe-bind (Safe-ask client.ensure_distributor) (λ ensured e.
        Safe-bind (Safe-ask client.next_round_id) (λ id known.
          Safe-bind (Safe-ask (client.fetch_intent 0 id)) (λ orphan f.
            Safe-option orphan
              (start_round-Safe (fresh_round secrets id now)
                (record s { ledger = charge_basket rpc keeper ensured s.ledger })
                ((refl, fresh id known), w.1))
              (λ intent.
                abandon_orphan-Safe intent
                  (record s { ledger = charge_basket rpc keeper ensured s.ledger }) w))))

  charge_abandon-Safe :
      (round : ActiveRound) (already : Bool)
      → Safe (λ charged. Unit) (charge_abandon client rpc keeper round already)
  unfolding charge_abandon
  charge_abandon-Safe round true = Safe-return _ tt
  charge_abandon-Safe round false =
      Safe-bind (Safe-ask (client.abandon_round round.round_id)) (λ signature e. Safe-return _ tt)

  -- An abandoned round leaves the collecting slot empty.
  pub abandon_collecting-Safe :
      (round : ActiveRound) (already : Bool) (s : KeeperState)
      → Pays s.paying
      → Safe Kept (abandon_collecting client rpc keeper round already s)
  unfolding abandon_collecting
  abandon_collecting-Safe round already s w =
      Safe-bind (charge_abandon-Safe round already)
        (λ charged u. Safe-bind (Safe-confirm none) (λ done v. Safe-return _ (tt, w)))
