-- ===== src/Engine/Commit/Safe.antt =====
-- Well-formed states of keeper/round/engine.ts under preparing and committing a round.
use Prim.Native.String.{String}
use stonkfolio.Prelude.{
  ℕ, ◌+◌, ◌≡◌, List, [], ◌∷◌, ◌++◌, length, Option, none, some, Bool, true, false, refl, sym, subst,
  ok, require, ◌>>◌,
}
use stonkfolio.Send.{Rpc}
use stonkfolio.Round.Policy.{RoundPolicy, number_part}
use stonkfolio.Store.{KeeperState, ActiveRound, ExpiringRound}
use stonkfolio.Engine.{Answer, ask, Client, RoundHeader, with_round, other_bundle}
use stonkfolio.Engine.Costs.{charge_round}
use stonkfolio.Engine.Finish.{or_empty, release_where}
use stonkfolio.Engine.Finish.Kept.{release_where_lem, Unlisted}
use stonkfolio.Engine.Finish.Safe.{finish_paying-IsWellFormed, append-Pays}
use stonkfolio.Engine.Safe.{
  IsWellFormed, Collects, Pays, Kept, may_pay, Returns, Returns-ok, Returns-err, Returns-if,
  Returns-ask, Returns-bind,
}
use stonkfolio.Engine.Commit.{
  PreparedRound, PreparedAsset, prepare, load_prepared, is_left_out, committed_round,
  expiring_round, place_round, hand_over, send_commit, check_header, commit, is_text,
}

pub prepare-Returns :
    (built : Answer PreparedRound) (published : Answer Unit) (round : ActiveRound) (s : KeeperState)
    → IsWellFormed (with_round round s)
    → Returns Kept (prepare built published round s)
unfolding prepare
prepare-Returns built published round s w =
    Returns-bind (ask built) (Returns-ask built) (λ prepared e.
      Returns-bind (ask published) (Returns-ask published)
        (λ done f. Returns-ok _ ((refl, w.0.1), w.1)))

pub load_prepared-Returns :
    (bundle : Answer PreparedRound) (round : ActiveRound)
    → Returns (λ prepared. Unit) (load_prepared bundle round)
unfolding load_prepared
load_prepared-Returns bundle round =
    Returns-bind (ask bundle) (Returns-ask bundle)
      (λ prepared e. by_hash prepared (is_text round.manifest_hash_hex prepared.manifest_hash))
  where
    by_hash :
        (prepared : PreparedRound) (test : Bool)
        → Returns (λ p. Unit) (require test other_bundle >> ok prepared)
    by_hash prepared true = record { ends = tt }
    by_hash prepared false = record { ends = refl }

place_round-IsWellFormed :
    (assets : List PreparedAsset) (expiring : ExpiringRound) (round : ActiveRound) (s : KeeperState)
    → s.round ≡ none
    → Pays s.paying
    → Unlisted round.round_id s.paying
    → may_pay round.status ≡ true
    → IsWellFormed (place_round assets expiring round s).0
unfolding place_round
place_round-IsWellFormed [] expiring round s empty h u e =
    finish_paying-IsWellFormed round s (subst (λ r. Collects r s.paying) (sym empty) tt, h)
place_round-IsWellFormed (a ∷ rest) expiring round s empty h u e = (
  subst (λ r. Collects r (s.paying ++ round ∷ [])) (sym empty) tt,
  append-Pays s.paying round h u e,
)

hand_over-IsWellFormed :
    (prepared : PreparedRound) (expiry_ts : ℕ) (round : ActiveRound) (s : KeeperState)
    → Pays s.paying
    → Unlisted round.round_id s.paying
    → IsWellFormed (hand_over prepared expiry_ts round s).0
unfolding hand_over committed_round
hand_over-IsWellFormed prepared expiry_ts round s h u =
    let test = is_left_out prepared in
    let left = release_where test (or_empty round.assets) s in
    let given = release_where_lem "" test (or_empty round.assets) s in
    place_round-IsWellFormed prepared.assets (expiring_round round expiry_ts prepared)
      (committed_round round expiry_ts left.0) (record left.1 { round = none }) refl
      (subst Pays (sym given.2) h) (subst (Unlisted round.round_id) (sym given.2) u) refl

module _ (client : Client) (rpc : Rpc) (keeper : String) (policy : RoundPolicy) where
  send_commit-Returns :
      (now : ℕ) (prepared : PreparedRound) (round : ActiveRound) (before : Option RoundHeader)
      → Returns
          (λ sent. sent.round_id ≡ round.round_id)
          (send_commit client rpc keeper policy now prepared round before)
  unfolding send_commit charge_round
  send_commit-Returns now prepared round (some header) = Returns-ok _ refl
  send_commit-Returns now prepared round none =
      Returns-bind
        (ask (
          client.commit_round round.round_id prepared.assets_root prepared.manifest_hash
            (length prepared.assets) (now + number_part policy.round_expiry_secs)))
        (Returns-ask _) (λ signature e. Returns-ok _ refl)

  check_header-Returns :
      (round : ActiveRound) (header : Option RoundHeader)
      → Returns (λ expiry_ts. Unit) (check_header client rpc keeper policy round header)
  unfolding check_header
  check_header-Returns round none = Returns-err _ refl
  check_header-Returns round (some header) =
      Returns-if (is_text round.assets_root_hex header.assets_root) (Returns-ok _ tt)
        (Returns-err _ refl)

  -- A commit keeps the state well-formed.
  pub commit-Returns :
      (bundle : Answer PreparedRound) (now : ℕ) (round : ActiveRound) (s : KeeperState)
      → IsWellFormed (with_round round s)
      → Returns Kept (commit client rpc keeper policy bundle now round s)
  unfolding commit
  commit-Returns bundle now round s w =
      Returns-bind (load_prepared bundle round) (load_prepared-Returns bundle round) (λ prepared u.
        Returns-bind (ask (client.fetch_round 0 round.round_id)) (Returns-ask _) (λ before e.
          Returns-bind (send_commit client rpc keeper policy now prepared round before)
            (send_commit-Returns now prepared round before)
            (λ sent same.
              Returns-bind (ask (client.fetch_round 1 round.round_id)) (Returns-ask _) (λ header f.
                Returns-bind (check_header client rpc keeper policy sent header)
                  (check_header-Returns sent header)
                  (λ expiry_ts v. Returns-ok _ (
                    hand_over-IsWellFormed prepared expiry_ts sent s w.1
                      (subst (λ id. Unlisted id s.paying) (sym same) w.0.1)))))))
