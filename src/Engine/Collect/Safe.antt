-- ===== src/Engine/Collect/Safe.antt =====
-- Well-formed states of keeper/round/engine.ts under collecting snapshots.
use Prim.Native.String.{String}
use text.Mathlib.Text.{◌==◌ as str_eq}
use stonkfolio.Prelude.{
  Bool-cases, inl, inr, ◌||◌, ◌+◌, ℕ, Option, none, some, false, not, refl, ltb, leb, length, ◌==◌,
}
use stonkfolio.Send.{Rpc}
use stonkfolio.Round.Policy.{RoundPolicy, number_part}
use stonkfolio.Round.Trigger.{TriggerDecision, trigger, window_open, pot_empty, too_costly}
use stonkfolio.Store.{KeeperState, ActiveRound}
use stonkfolio.Engine.{Answer, Client, IntentView, RoundParams, with_round}
use stonkfolio.Engine.Costs.{charge_round}
use stonkfolio.Engine.Safe.{
  IsWellFormed, Safe, Ends, Kept, Safe-return, Safe-lift, Safe-throw, Safe-if, Safe-answer,
  Safe-ask, Safe-confirm, Safe-bind, Safe-recall, estimate_cost-Returns,
}
use stonkfolio.Engine.Opening.Safe.{charge_round-MayCollect, abandon_collecting-Safe}
use stonkfolio.Engine.Collect.{
  Sources, adopt_closed_window, is_open, take_snapshot, adopt, close_window, wait_or_abandon,
  try_close, collect_open, check_intent, collect, is_transient_close, add_snapshot, same_id,
}

adopt_closed_window-Ends :
    (round : ActiveRound) (intent : IntentView) (s : KeeperState)
    → IsWellFormed (with_round round s)
    → Ends (λ closed. IsWellFormed (with_round closed s)) (adopt_closed_window round intent)
unfolding adopt_closed_window
adopt_closed_window-Ends round intent s w = elim (Bool-cases (is_open intent.status)) [
  | inl e ↦ rw e refl
  | inr e ↦
      rw e
        (elim (Bool-cases (
          not (str_eq intent.snapshot_chain_head_hex round.chain_head_hex)
          || not (intent.snapshot_count == length round.candidates))) [
            | inl f ↦ rw f refl
            | inr f ↦ rw f ((refl, w.0.1), w.1)
          ])
]

module _ (sources : Sources) (policy : RoundPolicy) (params : RoundParams) (keeper : String) where
  take_snapshot-Safe :
      (round : ActiveRound) (now : ℕ) (s : KeeperState)
      → IsWellFormed (with_round round s)
      → Safe Kept (take_snapshot sources policy params keeper round now s)
  unfolding take_snapshot add_snapshot
  take_snapshot-Safe round now s w = Safe-bind (Safe-ask sources.holders) (λ rows e.
      Safe-if (ltb rows.slot round.window_start_slot) (Safe-return _ w)
        (Safe-bind (Safe-ask sources.pool_price) (λ price f. Safe-return _ w)))

  module _ (client : Client) (rpc : Rpc) (rent : ℕ → Answer ℕ) where
    adopt-Safe :
        (round : ActiveRound) (s : KeeperState) (intent : Option IntentView)
        → IsWellFormed (with_round round s)
        → Safe Kept (adopt sources policy params keeper client rpc rent round s intent)
    unfolding adopt
    adopt-Safe round s none w = Safe-throw _ refl
    adopt-Safe round s (some intent) w =
        Safe-bind (Safe-lift (record { ends = adopt_closed_window-Ends round intent s w }))
          (λ closed kept. Safe-return _ kept)

    close_window-Safe :
        (round : ActiveRound) (s : KeeperState)
        → IsWellFormed (with_round round s)
        → Safe Kept (close_window sources policy params keeper client rpc rent round s)
    unfolding close_window
    close_window-Safe round s w =
        Safe-answer
          (client.close_window round.round_id round.chain_head_hex (length round.candidates))
          (λ text.
            Safe-if (is_transient_close sources policy params keeper client rpc rent text)
              (Safe-return _ w) (Safe-throw _ refl))
          (λ signature. Safe-bind (Safe-confirm none) (λ done u.
            Safe-bind (Safe-ask (client.fetch_intent 1 round.round_id)) (λ after e.
              adopt-Safe (charge_round rpc keeper (some signature) round) s after (
                charge_round-MayCollect client rpc keeper (some signature) round s.paying w.0,
                w.1,
              ))))

    wait_or_abandon-Safe :
        (round : ActiveRound) (now : ℕ) (s : KeeperState)
        → IsWellFormed (with_round round s)
        → Safe Kept (wait_or_abandon sources policy params keeper client rpc rent round now s)
    unfolding wait_or_abandon
    wait_or_abandon-Safe round now s w =
        Safe-if (leb (round.window_start_ts + params.max_window_secs) now)
          (abandon_collecting-Safe client rpc keeper round false s w.1) (Safe-return _ w)

    decided-Safe :
        (decision : TriggerDecision) (round : ActiveRound) (now : ℕ) (s : KeeperState)
        → IsWellFormed (with_round round s)
        → Safe Kept (elim decision [
          | trigger ↦ close_window sources policy params keeper client rpc rent round s
          | _ ↦ wait_or_abandon sources policy params keeper client rpc rent round now s
        ])
    decided-Safe trigger round now s w = close_window-Safe round s w
    decided-Safe (window_open elapsed needs) round now s w = wait_or_abandon-Safe round now s w
    decided-Safe pot_empty round now s w = wait_or_abandon-Safe round now s w
    decided-Safe (too_costly cost bps pot) round now s w = wait_or_abandon-Safe round now s w

    try_close-Safe :
        (round : ActiveRound) (now : ℕ) (s : KeeperState)
        → IsWellFormed (with_round round s)
        → Safe Kept (try_close sources policy params keeper client rpc rent round now s)
    unfolding try_close
    try_close-Safe round now s w =
        Safe-bind
          (Safe-lift (
            estimate_cost-Returns rent params s.ledger.basket_lamports round.latest_eligible_count))
          (λ cost u. decided-Safe _ round now s w)

    pub collect_open-Safe :
        (round : ActiveRound) (now : ℕ) (s : KeeperState)
        → IsWellFormed (with_round round s)
        → Safe Kept (collect_open sources policy params keeper client rpc rent round now s)
    unfolding collect_open
    collect_open-Safe round now s w =
        Safe-if (leb round.next_snapshot_at now) (take_snapshot-Safe round now s w) (
          Safe-if (ltb (length round.candidates) (number_part policy.samples_per_round))
            (Safe-return _ w)
            (Safe-if (round.latest_eligible_count == 0) (wait_or_abandon-Safe round now s w)
              (try_close-Safe round now s w)))

    check_intent-Safe :
        (round : ActiveRound) (now : ℕ) (s : KeeperState) (intent : Option IntentView)
        → IsWellFormed (with_round round s)
        → Safe Kept (check_intent sources policy params keeper client rpc rent round now s intent)
    unfolding check_intent
    check_intent-Safe round now s none w =
        Safe-bind (Safe-ask (client.open_round round.round_id round.commitment_hex)) (λ signature e.
          Safe-return _
            (charge_round-MayCollect client rpc keeper (some signature) round s.paying w.0, w.1))
    check_intent-Safe round now s (some intent) w =
        let dated = record round {
          window_start_slot = intent.open_slot;
          window_start_ts = intent.open_ts;
        } in
        Safe-if (not (str_eq intent.secret_commitment_hex round.commitment_hex)) (Safe-throw _ refl)
          (Safe-if (not (is_open intent.status)) (adopt-Safe dated s (some intent) w) (
            Safe-bind (Safe-confirm (some round.round_id))
              (λ done u. collect_open-Safe dated now s w)))

    -- Collecting keeps the state well-formed.
    pub collect-Safe :
        (round : ActiveRound) (now : ℕ) (s : KeeperState)
        → IsWellFormed (with_round round s)
        → Safe Kept (collect sources policy params keeper client rpc rent round now s)
    unfolding collect
    collect-Safe round now s w = Safe-bind Safe-recall (λ confirmed u.
        Safe-if (same_id confirmed round.round_id) (collect_open-Safe round now s w) (
          Safe-bind (Safe-ask (client.fetch_intent 0 round.round_id))
            (λ intent e. check_intent-Safe round now s intent w)))
