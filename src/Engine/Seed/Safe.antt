-- ===== src/Engine/Seed/Safe.antt =====
-- Well-formed states of keeper/round/engine.ts under recording the seed of a round.
use Prim.Native.String.{String}
use stonkfolio.Prelude.{ℕ, ◌+◌, Option, none, some, true, false, not, refl, ltb, leb}
use stonkfolio.Send.{Rpc}
use stonkfolio.Round.Policy.{RoundPolicy, number_part}
use stonkfolio.Store.{KeeperState, ActiveRound, RoundStatus}
use stonkfolio.Engine.{
  Answer, Client, IntentView, IntentStatus, with_round, mentions, not_seeded, return, throw, worked,
}
use stonkfolio.Engine.Costs.{charge_round}
use stonkfolio.Engine.Safe.{
  IsWellFormed, Safe, Kept, Safe-return, Safe-throw, Safe-if, Safe-answer, Safe-ask, Safe-bind,
}
use stonkfolio.Engine.Opening.{abandon_collecting}
use stonkfolio.Engine.Opening.Safe.{charge_round-MayCollect, abandon_collecting-Safe}
use stonkfolio.Engine.Seed.{
  expired_seed_abandon_delay_secs, finish_seed, refused_seed, record_seed, seed_from, seed,
}

module _ (client : Client) (rpc : Rpc) (keeper : String) (now : ℕ) where
  finish_seed-Safe :
      (round : ActiveRound) (s : KeeperState) (intent : Option IntentView)
      → IsWellFormed (with_round round s)
      → Safe Kept (finish_seed client rpc keeper now round s intent)
  unfolding finish_seed
  finish_seed-Safe round s none w = Safe-throw _ refl
  finish_seed-Safe round s (some intent) w = by_status intent.status
    where
      by_status :
          (status : IntentStatus)
          → Safe Kept (elim status [
            | IntentStatus.abandoned ↦ abandon_collecting client rpc keeper round true s
            | IntentStatus.seeded ↦
                return (with_round (record round { status = RoundStatus.seeded }) s, worked)
            | _ ↦ throw not_seeded
          ])
      by_status IntentStatus.opened = Safe-throw _ refl
      by_status IntentStatus.closed = Safe-throw _ refl
      by_status IntentStatus.seeded = Safe-return _ ((refl, w.0.1), w.1)
      by_status IntentStatus.committed = Safe-throw _ refl
      by_status IntentStatus.abandoned = abandon_collecting-Safe client rpc keeper round true s w.1

  refused_seed-Safe :
      (round : ActiveRound) (intent : IntentView) (text : String) (s : KeeperState)
      → IsWellFormed (with_round round s)
      → Safe Kept (refused_seed client rpc keeper now round intent text s)
  unfolding refused_seed
  refused_seed-Safe round intent text s w =
      Safe-if (mentions "SeedNotYetAvailable" text) (Safe-return _ w) (
        Safe-if (not (mentions "SeedExpired" text)) (Safe-throw _ refl) (
          Safe-if (ltb now (intent.close_ts + expired_seed_abandon_delay_secs)) (Safe-return _ w)
            (abandon_collecting-Safe client rpc keeper round false s w.1)))

  record_seed-Safe :
      (policy : RoundPolicy) (slot : Answer ℕ) (round : ActiveRound) (intent : IntentView)
      (s : KeeperState)
      → IsWellFormed (with_round round s)
      → Safe Kept (record_seed client rpc keeper now policy slot round intent s)
  unfolding record_seed
  record_seed-Safe policy slot round intent s w = Safe-bind (Safe-ask slot) (λ at e.
      Safe-if (leb at (intent.close_slot + number_part policy.seed_slot_offset)) (Safe-return _ w) (
        Safe-answer (client.record_seed round.round_id)
          (λ text. refused_seed-Safe round intent text s w)
          (λ signature. Safe-bind (Safe-ask (client.fetch_intent 1 round.round_id)) (λ after f.
            finish_seed-Safe (charge_round rpc keeper (some signature) round) s after (
              charge_round-MayCollect client rpc keeper (some signature) round s.paying w.0,
              w.1,
            )))))

  seed_from-Safe :
      (policy : RoundPolicy) (slot : Answer ℕ) (round : ActiveRound) (s : KeeperState)
      (intent : Option IntentView)
      → IsWellFormed (with_round round s)
      → Safe Kept (seed_from client rpc keeper now policy slot round s intent)
  unfolding seed_from
  seed_from-Safe policy slot round s none w = finish_seed-Safe round s none w
  seed_from-Safe policy slot round s (some intent) w = by_status intent.status
    where
      by_status :
          (status : IntentStatus)
          → Safe Kept (elim status [
            | IntentStatus.closed ↦ record_seed client rpc keeper now policy slot round intent s
            | _ ↦ finish_seed client rpc keeper now round s (some intent)
          ])
      by_status IntentStatus.closed = record_seed-Safe policy slot round intent s w
      by_status IntentStatus.opened = finish_seed-Safe round s (some intent) w
      by_status IntentStatus.seeded = finish_seed-Safe round s (some intent) w
      by_status IntentStatus.committed = finish_seed-Safe round s (some intent) w
      by_status IntentStatus.abandoned = finish_seed-Safe round s (some intent) w

  -- Seeding keeps the state well-formed.
  pub seed-Safe :
      (policy : RoundPolicy) (slot : Answer ℕ) (round : ActiveRound) (s : KeeperState)
      → IsWellFormed (with_round round s)
      → Safe Kept (seed client rpc keeper now policy slot round s)
  unfolding seed
  seed-Safe policy slot round s w =
      Safe-bind (Safe-ask (client.fetch_intent 0 round.round_id))
        (λ intent e. seed_from-Safe policy slot round s intent w)
