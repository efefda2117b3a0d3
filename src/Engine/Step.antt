-- ===== src/Engine/Step.antt =====
-- `step` of keeper/round/engine.ts: at most one unit of work, and then the state is saved.
pub mod Safe
use Prim.Native.String.{String}
use stonkfolio.Prelude.{
  ℕ, List, [], ◌∷◌, map, Option, none, some, Bool, true, false, leb, ◌==◌, Result, err, ok,
  if◌then◌else◌,
}
use stonkfolio.Send.{Rpc}
use stonkfolio.Round.Policy.{RoundPolicy}
use stonkfolio.Store.{KeeperState, ActiveRound, RoundStatus}
use stonkfolio.Engine.{
  Answer, Error, not_collecting, Client, RoundParams, Report, collecting, waiting, worked, Memory,
  Run, ◌>>=◌, return, lift, throw, save,
}
use stonkfolio.Engine.Opening.{Secrets, open_round}
use stonkfolio.Engine.Collect.{Sources, collect}
use stonkfolio.Engine.Seed.{seed}
use stonkfolio.Engine.Buy.{BasketCandidate, Attempt}
use stonkfolio.Engine.Settle.{Wallet}
use stonkfolio.Engine.Basket.{buy_basket}
use stonkfolio.Engine.Reserve.{Mints}
use stonkfolio.Engine.Finish.{finish_paying}
use stonkfolio.Engine.Commit.{PreparedRound, prepare, commit, load_prepared}
use stonkfolio.Engine.Activate.{Progress, activate}
use stonkfolio.Engine.Push.{Sender, Pushing}
use stonkfolio.Engine.Queue.{Accounts, push}
use stonkfolio.Engine.Close.{due_close, close_expired}

-- What one step may ask of the outside. `built` is the round that `prepareRound` makes of the inputs, and
-- `bundle` the one that the published bundle of a round reproduces.
pub record Outside : Type 0 where
  pub now : ℕ
  pub client : Client
  pub rpc : Rpc
  pub keeper : String
  pub secrets : Secrets
  pub sources : Sources
  pub slot : Answer ℕ
  pub selected : Answer (List BasketCandidate)
  pub attempt : Attempt
  pub wallet : Wallet
  pub mints : Answer Mints
  pub built : ActiveRound → Answer PreparedRound
  pub published : Answer Unit
  pub bundle : ActiveRound → Answer PreparedRound
  pub sender : Sender
  pub accounts : Accounts

module _ (policy : RoundPolicy) (params : RoundParams) (o : Outside) where
  unfoldable pub advance_collecting : ActiveRound → KeeperState → Run (KeeperState × Report)
  unfolding collect seed buy_basket prepare commit
  advance_collecting round s = elim round.status [
    | RoundStatus.opened ↦
        collect o.sources policy params o.keeper o.client o.rpc o.accounts.rent round o.now s
    | RoundStatus.closed ↦ seed o.client o.rpc o.keeper o.now policy o.slot round s
    | RoundStatus.seeded ↦
        buy_basket o.client o.rpc o.keeper params o.attempt o.wallet o.accounts.rent policy
          o.selected o.mints o.now round s
    | RoundStatus.funded ↦ lift (prepare (o.built round) o.published round s)
    | RoundStatus.prepared ↦
        lift (commit o.client o.rpc o.keeper policy (o.bundle round) o.now round s)
    | RoundStatus.committed ↦ throw (not_collecting round.status)
    | RoundStatus.active ↦ throw (not_collecting round.status)
  ]

  -- A paying round written back where it stands.
  unfoldable pub put_paying : ActiveRound → List ActiveRound → List ActiveRound
  put_paying round rounds = map (λ r. if r.round_id == round.round_id then round else r) rounds

  push_round : ActiveRound → KeeperState → Result Error Progress
  unfolding push load_prepared
  push_round round s = elim (load_prepared (o.bundle round) round) [
    | err failure ↦ err failure
    | ok prepared ↦ elim (push o.accounts policy prepared o.sender params o.now o.client round s) [
      | err failure ↦ err failure
      | ok (progress, sent) ↦ ok progress
    ]
  ]

  -- The work on one paying round.
  pay_round : ActiveRound → KeeperState → Result Error Progress
  unfolding push_round activate
  pay_round round s = elim round.status [
    | RoundStatus.committed ↦
        activate o.client o.rpc o.keeper params o.sender.is_transient o.now (o.bundle round) round s
    | _ ↦ push_round round s
  ]

  is_expired : Option ℕ → Bool
  is_expired none = false
  is_expired (some expiry_ts) = leb expiry_ts o.now

  -- A round that expires before every payout landed ends.
  end_round : ActiveRound → KeeperState → KeeperState × Option Report
  unfolding finish_paying
  end_round round s = let (finished, report) = finish_paying round s in (finished, some report)

  -- The oldest paying round that has work; a round that backs off keeps what it noted.
  unfoldable pub advance_paying :
      List ActiveRound → KeeperState → Result Error (KeeperState × Option Report)
  unfolding pay_round is_expired end_round put_paying
  advance_paying [] s = ok (s, none)
  advance_paying (round ∷ rest) s =
      if is_expired round.expiry_ts then ok (end_round round s) else elim (pay_round round s) [
        | err failure ↦ err failure
        | ok p ↦
            let written = record p.state { paying = put_paying p.round p.state.paying } in
            elim p.report [
              | some report ↦ ok (written, some report)
              | none ↦ advance_paying rest written
            ]
      ]

  -- After the collecting round, a paying round has the step where that only waits.
  then_paying : KeeperState × Report → Run (KeeperState × Report)
  unfolding advance_paying
  then_paying (s, worked) = return (s, worked)
  then_paying (s, report) = do
    (paid, said) ← lift (advance_paying s.paying s)
    return (paid, elim said [ some r ↦ r | none ↦ report ])

  unfoldable pub advance : KeeperState → Run (KeeperState × Report)
  unfolding due_close close_expired open_round advance_collecting then_paying
  advance s = elim (due_close o.now s.expiring) [
    | some (round, asset) ↦
        lift (close_expired o.client o.rpc o.keeper o.now round.round_id asset s)
    | none ↦ do
      done ← elim s.round [
        | some round ↦ advance_collecting round s
        | none ↦ open_round o.client o.rpc o.keeper o.secrets o.now s
      ]
      then_paying done
  ]

  -- `load`, the work, and `save`; a throw leaves on disk what was saved before it.
  unfoldable pub step : Run Report
  unfolding advance
  step memory = (advance memory.disk >>= λ done. (save done.0 >>= λ saved. return done.1)) memory
