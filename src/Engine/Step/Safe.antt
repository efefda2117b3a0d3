-- ===== src/Engine/Step/Safe.antt =====
-- The states that the steps of keeper/round/engine.ts reach from an empty one.
use stonkfolio.Prelude.{
  ℕ, ◌≡◌, ◌==◌, List, [], ◌∷◌, Option, none, some, true, All, sym, subst, arith, Bool-cases, inl,
  inr, ok,
}
use stonkfolio.Round.Policy.{RoundPolicy}
use stonkfolio.Store.{initial_state, KeeperState, ActiveRound, RoundStatus}
use stonkfolio.Engine.{
  Memory, Report, collecting, waiting, worked, ◌>>=◌, return, save, RoundParams, with_round, throw,
  not_collecting, lift,
}
use stonkfolio.Engine.Finish.Kept.{Unlisted, DistinctIds}
use stonkfolio.Engine.Finish.Safe.{finish_paying-IsWellFormed}
use stonkfolio.Engine.Opening.{open_round}
use stonkfolio.Engine.Opening.Safe.{open_round-Safe}
use stonkfolio.Engine.Collect.{collect}
use stonkfolio.Engine.Collect.Safe.{collect-Safe}
use stonkfolio.Engine.Seed.{seed}
use stonkfolio.Engine.Seed.Safe.{seed-Safe}
use stonkfolio.Engine.Basket.{buy_basket}
use stonkfolio.Engine.Basket.Safe.{buy_basket-Safe}
use stonkfolio.Engine.Commit.{prepare, commit, load_prepared}
use stonkfolio.Engine.Commit.Safe.{prepare-Returns, commit-Returns, load_prepared-Returns}
use stonkfolio.Engine.Activate.{activate}
use stonkfolio.Engine.Activate.Safe.{IsSound, activate-Returns}
use stonkfolio.Engine.Queue.{push}
use stonkfolio.Engine.Queue.Safe.{push-Returns}
use stonkfolio.Engine.Close.{due_close}
use stonkfolio.Engine.Close.Safe.{close_expired-Returns}
use stonkfolio.Engine.Safe.{
  IsWellFormed, Collects, Pays, may_collect, may_pay, Ends, Safe, Kept, Returns, Returns-ok,
  Returns-if, Returns-option, Returns-result, Safe-return, Safe-lift, Safe-option, Safe-bind,
  Safe-save,
}
use stonkfolio.Engine.Step.{
  Outside, advance_collecting, put_paying, push_round, pay_round, is_expired, end_round,
  advance_paying, then_paying, advance, step,
}

module _ (policy : RoundPolicy) (params : RoundParams) (o : Outside) where
  put_paying-Unlisted :
      (id : ℕ) (new : ActiveRound) (rounds : List ActiveRound)
      → Unlisted id rounds
      → Unlisted id (put_paying policy params o new rounds)
  unfolding put_paying Unlisted
  put_paying-Unlisted id new [] u = tt
  put_paying-Unlisted id new (r ∷ rest) u = elim (Bool-cases (r.round_id == new.round_id)) [
    | inl e ↦ rw e (ground (arith, u.0), put_paying-Unlisted id new rest u.1)
    | inr e ↦ rw e (u.0, put_paying-Unlisted id new rest u.1)
  ]

  put_paying-Pays :
      (new : ActiveRound) (rounds : List ActiveRound)
      → may_pay new.status ≡ true
      → Pays rounds
      → Pays (put_paying policy params o new rounds)
  unfolding put_paying DistinctIds
  put_paying-Pays new [] h p = p
  put_paying-Pays new (r ∷ rest) h p =
      let later = put_paying-Pays new rest h (p.0.1, p.1.1) in
      let unlisted = put_paying-Unlisted r.round_id new rest p.1.0 in
      elim (Bool-cases (r.round_id == new.round_id)) [
        | inl e ↦
            let same : r.round_id ≡ new.round_id = ground arith in
            rw e (
              (h, later.0),
              (
                subst (λ id. Unlisted id (put_paying policy params o new rest)) same unlisted,
                later.1,
              ),
            )
        | inr e ↦ rw e ((p.0.0, later.0), (unlisted, later.1))
      ]

  put_paying-Collects :
      (round : Option ActiveRound) (new : ActiveRound) (paying : List ActiveRound)
      → Collects round paying
      → Collects round (put_paying policy params o new paying)
  put_paying-Collects none new paying c = tt
  put_paying-Collects (some r) new paying c = (c.0, put_paying-Unlisted r.round_id new paying c.1)

  push_round-Returns :
      (round : ActiveRound) (s : KeeperState)
      → IsWellFormed s
      → may_pay round.status ≡ true
      → Returns IsSound (push_round policy params o round s)
  unfolding push_round
  push_round-Returns round s w h =
      Returns-result (load_prepared (o.bundle round) round)
        (load_prepared-Returns (o.bundle round) round)
        (λ prepared u.
          Returns-result (push o.accounts policy prepared o.sender params o.now o.client round s)
            (push-Returns o.accounts policy prepared o.sender params o.now o.client round s w h)
            (λ done sound. Returns-ok _ sound))

  pay_round-Returns :
      (round : ActiveRound) (s : KeeperState)
      → IsWellFormed s
      → may_pay round.status ≡ true
      → Returns IsSound (pay_round policy params o round s)
  unfolding pay_round
  pay_round-Returns round s w h = go round.status
    where
      pushes : Returns IsSound (push_round policy params o round s)
      pushes = push_round-Returns round s w h

      go :
          (status : RoundStatus)
          → Returns IsSound (elim status [
            | RoundStatus.committed ↦
                activate o.client o.rpc o.keeper params o.sender.is_transient o.now
                  (o.bundle round)
                  round
                  s
            | _ ↦ push_round policy params o round s
          ])
      go RoundStatus.opened = pushes
      go RoundStatus.closed = pushes
      go RoundStatus.seeded = pushes
      go RoundStatus.funded = pushes
      go RoundStatus.prepared = pushes
      go RoundStatus.committed =
          activate-Returns o.client o.rpc o.keeper params o.sender.is_transient o.now
            (o.bundle round) round s w h
      go RoundStatus.active = pushes

  advance_paying-Returns :
      (rounds : List ActiveRound) (s : KeeperState)
      → All (λ r. may_pay r.status ≡ true) rounds
      → IsWellFormed s
      → Returns (λ done. IsWellFormed done.0) (advance_paying policy params o rounds s)
  unfolding advance_paying end_round
  advance_paying-Returns [] s h w = Returns-ok _ w
  advance_paying-Returns (round ∷ rest) s h w =
      Returns-if (is_expired policy params o round.expiry_ts)
        (Returns-ok _ (finish_paying-IsWellFormed round s w))
        (Returns-result (pay_round policy params o round s) (pay_round-Returns round s w h.0)
          (λ p sound.
            let written : KeeperState = record p.state {
              paying = put_paying policy params o p.round p.state.paying;
            } in
            let kept : IsWellFormed written = (
              put_paying-Collects p.state.round p.round p.state.paying sound.0.0,
              put_paying-Pays p.round p.state.paying sound.1 sound.0.1,
            ) in
            Returns-option p.report (advance_paying-Returns rest written h.1 kept)
              (λ report. Returns-ok _ kept)))

  advance_collecting-Safe :
      (round : ActiveRound) (s : KeeperState)
      → IsWellFormed (with_round round s)
      → Safe Kept (advance_collecting policy params o round s)
  unfolding advance_collecting
  advance_collecting-Safe round s w = go round.status w.0.0
    where
      go :
          (status : RoundStatus)
          → may_collect status ≡ true
          → Safe Kept (elim status [
            | RoundStatus.opened ↦
                collect o.sources policy params o.keeper o.client o.rpc o.accounts.rent round o.now
                  s
            | RoundStatus.closed ↦ seed o.client o.rpc o.keeper o.now policy o.slot round s
            | RoundStatus.seeded ↦
                buy_basket o.client o.rpc o.keeper params o.attempt o.wallet o.accounts.rent policy
                  o.selected o.mints o.now round s
            | RoundStatus.funded ↦ lift (prepare (o.built round) o.published round s)
            | RoundStatus.prepared ↦
                lift (commit o.client o.rpc o.keeper policy (o.bundle round) o.now round s)
            | RoundStatus.committed ↦ throw (not_collecting round.status)
            | RoundStatus.active ↦ throw (not_collecting round.status)
          ])
      go RoundStatus.opened e =
          collect-Safe o.sources policy params o.keeper o.client o.rpc o.accounts.rent round o.now s
            w
      go RoundStatus.closed e = seed-Safe o.client o.rpc o.keeper o.now policy o.slot round s w
      go RoundStatus.seeded e =
          buy_basket-Safe o.client o.rpc o.keeper params o.attempt o.wallet o.accounts.rent policy
            o.selected o.mints o.now round s w
      go RoundStatus.funded e = Safe-lift (prepare-Returns (o.built round) o.published round s w)
      go RoundStatus.prepared e =
          Safe-lift (commit-Returns o.client o.rpc o.keeper policy (o.bundle round) o.now round s w)
      go RoundStatus.committed e = cc
      go RoundStatus.active e = cc

  then_paying-Safe :
      (s : KeeperState) (report : Report)
      → IsWellFormed s
      → Safe Kept (then_paying policy params o (s, report))
  unfolding then_paying
  then_paying-Safe s worked w = Safe-return _ w
  then_paying-Safe s collecting w =
      Safe-bind (Safe-lift (advance_paying-Returns s.paying s w.1.0 w)) (λ paid k. Safe-return _ k)
  then_paying-Safe s waiting w =
      Safe-bind (Safe-lift (advance_paying-Returns s.paying s w.1.0 w)) (λ paid k. Safe-return _ k)

  -- The next round's id, as the program gives it, is none of those that are being paid.
  abbrev pub IsFresh : KeeperState → Type 0
  IsFresh s = (id : ℕ) → o.client.next_round_id ≡ ok id → Unlisted id s.paying

  -- The work on the collecting round, or the opening of one.
  collect_or_open-Safe :
      (s : KeeperState)
      → IsWellFormed s
      → IsFresh s
      → Safe Kept (elim s.round [
        | some round ↦ advance_collecting policy params o round s
        | none ↦ open_round o.client o.rpc o.keeper o.secrets o.now s
      ])
  collect_or_open-Safe s w fresh = go s.round w.0
    where
      go :
          (round : Option ActiveRound)
          → Collects round s.paying
          → Safe Kept (elim round [
            | some r ↦ advance_collecting policy params o r s
            | none ↦ open_round o.client o.rpc o.keeper o.secrets o.now s
          ])
      go none c = open_round-Safe o.client o.rpc o.keeper o.secrets o.now s w fresh
      go (some r) c = advance_collecting-Safe r s (c, w.1)

  advance-Safe :
      (s : KeeperState) → IsWellFormed s → IsFresh s → Safe Kept (advance policy params o s)
  unfolding advance
  advance-Safe s w fresh =
      Safe-option (due_close o.now s.expiring)
        (Safe-bind (collect_or_open-Safe s w fresh) (λ done k. then_paying-Safe done.0 done.1 k))
        (λ due.
          Safe-lift (close_expired-Returns o.client o.rpc o.keeper o.now due.0.round_id due.1 s w))

  pub step-IsWellFormed :
      (m : Memory)
      → IsWellFormed m.disk
      → IsFresh m.disk
      → IsWellFormed (step policy params o m).0.disk
        × Ends (λ report. Unit) (step policy params o m).1
  unfolding step
  step-IsWellFormed m w fresh =
      let stepping : Safe (λ report. Unit)
          (advance policy params o m.disk >>= λ done. (save done.0 >>= λ saved. return done.1)) =
        Safe-bind (advance-Safe m.disk w fresh)
          (λ done k. Safe-bind (Safe-save done.0 k) (λ saved u. Safe-return _ tt)) in
      stepping.runs m w

-- The states that steps reach from an empty one. Each step has its own answers, and the process may be
-- restarted between two, which empties the engine's memory and leaves the disk.
pub data Reached (policy : RoundPolicy) (params : RoundParams) : Memory → Type 0 where
  begin : (m : Memory) → m.disk ≡ initial_state → Reached policy params m
  stepped :
      (o : Outside) (m : Memory)
      → Reached policy params m
      → IsFresh policy params o m.disk
      → Reached policy params (step policy params o m).0
  restarted :
      (m : Memory)
      → Reached policy params m
      → Reached policy params (record m { confirmed_open = none })

Reached-IsWellFormed :
    (policy : RoundPolicy) (params : RoundParams) (m : Memory)
    → Reached policy params m
    → IsWellFormed m.disk
unfolding DistinctIds
Reached-IsWellFormed policy params _ (begin m e) = subst IsWellFormed (sym e) (tt, (tt, tt))
Reached-IsWellFormed policy params _ (stepped o m before fresh) =
    (step-IsWellFormed policy params o m (Reached-IsWellFormed policy params m before) fresh).0
Reached-IsWellFormed policy params _ (restarted m before) =
    Reached-IsWellFormed policy params m before

-- In every state that steps reach from an empty one, through throws and restarts, the collecting round
-- has the status of a collecting round, every paying round that of a paying one, and no two rounds have
-- one id, where the program never gives a new round the id of one that is being paid; and the next step
-- does not throw that a round with another status is still collecting.
pub Reached-step :
    (policy : RoundPolicy) (params : RoundParams) (o : Outside) (m : Memory)
    → Reached policy params m
    → IsFresh policy params o m.disk
    → IsWellFormed m.disk × Ends (λ report. Unit) (step policy params o m).1
Reached-step policy params o m reached fresh =
    let w = Reached-IsWellFormed policy params m reached in
    (w, (step-IsWellFormed policy params o m w fresh).1)
