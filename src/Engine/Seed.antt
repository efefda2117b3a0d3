-- ===== src/Engine/Seed.antt =====
-- How keeper/round/engine.ts has the seed of a closed round recorded.
pub mod Safe
use Prim.Native.String.{String}
use stonkfolio.Prelude.{
  ℕ, ◌+◌, Option, none, some, true, false, not, leb, ltb, err, ok, if◌then◌else◌,
}
use stonkfolio.Send.{Rpc}
use stonkfolio.Round.Policy.{RoundPolicy, number_part}
use stonkfolio.Store.{KeeperState, ActiveRound, RoundStatus}
use stonkfolio.Engine.{
  Answer, ask, thrown, not_seeded, Report, waiting, worked, Client, IntentView, IntentStatus,
  mentions, Run, ◌>>=◌, return, lift, throw, with_round,
}
use stonkfolio.Engine.Costs.{charge_round}
use stonkfolio.Engine.Opening.{abandon_collecting}

abbrev pub expired_seed_abandon_delay_secs : ℕ
expired_seed_abandon_delay_secs = 86_400

module _ (client : Client) (rpc : Rpc) (keeper : String) (now : ℕ) where
  -- The tests on the intent after any recording.
  finish_seed : ActiveRound → KeeperState → Option IntentView → Run (KeeperState × Report)
  unfolding abandon_collecting
  finish_seed round s none = throw not_seeded
  finish_seed round s (some intent) = elim intent.status [
    | IntentStatus.abandoned ↦ abandon_collecting client rpc keeper round true s
    | IntentStatus.seeded ↦
        return (with_round (record round { status = RoundStatus.seeded }) s, worked)
    | _ ↦ throw not_seeded
  ]

  -- The branches of a failed `recordSeed`.
  refused_seed :
      ActiveRound → IntentView → (text : String) → KeeperState → Run (KeeperState × Report)
  unfolding abandon_collecting
  refused_seed round intent text s =
      if mentions "SeedNotYetAvailable" text
      then return (with_round round s, waiting)
      else if not (mentions "SeedExpired" text)
      then throw (thrown text)
      else if ltb now (intent.close_ts + expired_seed_abandon_delay_secs)
      then return (with_round round s, waiting)
      else abandon_collecting client rpc keeper round false s

  record_seed :
      RoundPolicy
      → (slot : Answer ℕ) → ActiveRound
      → IntentView
      → KeeperState
      → Run (KeeperState × Report)
  unfolding refused_seed finish_seed
  record_seed policy slot round intent s = do
    at ← lift (ask slot)
    if leb at (intent.close_slot + number_part policy.seed_slot_offset)
        then return (with_round round s, waiting)
        else elim (client.record_seed round.round_id) [
          | err text ↦ refused_seed round intent text s
          | ok signature ↦ do
            after ← lift (ask (client.fetch_intent 1 round.round_id))
            finish_seed (charge_round rpc keeper (some signature) round) s after
        ]

  seed_from :
      RoundPolicy
      → (slot : Answer ℕ) → ActiveRound
      → KeeperState
      → Option IntentView
      → Run (KeeperState × Report)
  unfolding record_seed finish_seed
  seed_from policy slot round s none = finish_seed round s none
  seed_from policy slot round s (some intent) = elim intent.status [
    | IntentStatus.closed ↦ record_seed policy slot round intent s
    | _ ↦ finish_seed round s (some intent)
  ]

  unfoldable pub seed :
      RoundPolicy → (slot : Answer ℕ) → ActiveRound → KeeperState → Run (KeeperState × Report)
  unfolding seed_from
  seed policy slot round s = do
    intent ← lift (ask (client.fetch_intent 0 round.round_id))
    seed_from policy slot round s intent
