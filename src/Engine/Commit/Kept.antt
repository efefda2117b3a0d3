-- ===== src/Engine/Commit/Kept.antt =====
-- What committing a round in keeper/round/engine.ts does to the basket tokens that the coin accounts for.
use Prim.Native.String.{String}
use stonkfolio.Prelude.{
  ℕ, ◌+◌, ◌≡◌, List, [], ◌∷◌, ◌++◌, Option, none, some, arith, refl, ap, length, sym, subst, Bool,
  ◌∙◌, ok, ok-inj, >>=-eq-ok,
}
use stonkfolio.Send.{Rpc}
use stonkfolio.Round.Policy.{RoundPolicy, number_part}
use stonkfolio.Store.{ExpiringRound, FundedAsset, KeeperState, ActiveRound}
use stonkfolio.Engine.Costs.{charge_round}
use stonkfolio.Engine.{RoundHeader, ask, Answer, Client, Report}
use stonkfolio.Engine.Finish.{or_empty, release_where}
use stonkfolio.Engine.Finish.Kept.{
  reserved, reserved_by, reserved_by_all, reserved_by_option, tokens, release_where_lem, Unlisted,
  without_round-Unlisted, finish_paying-parts,
}
use stonkfolio.Engine.Commit.{
  PreparedAsset, place_round, committed_round, kept_assets, expiring_round, PreparedRound,
  send_commit, load_prepared, check_header, hand_over, is_left_out, commit,
}

reserved_by_all-append :
    (asked : String) (xs ys : List ActiveRound)
    → reserved_by_all asked (xs ++ ys) ≡ reserved_by_all asked xs + reserved_by_all asked ys
unfolding reserved_by_all
reserved_by_all-append asked [] ys = omega arith
reserved_by_all-append asked (x ∷ xs) ys = omega (arith, reserved_by_all-append asked xs ys)

-- Where the round is placed, what it reserves is accounted for.
place_round-tokens :
    (asked : String) (assets : List PreparedAsset) (expiring : ExpiringRound) (round : ActiveRound)
    (s : KeeperState)
    → Unlisted round.round_id s.paying
    → tokens asked (place_round assets expiring round s).0
      ≡ tokens asked s + reserved_by asked round
unfolding place_round tokens reserved_by_all
place_round-tokens asked [] expiring round s alone =
    let parts = finish_paying-parts asked round s in
    let option = ap (reserved_by_option asked) parts.1 in
    let others =
      ap (reserved_by_all asked) (parts.2 ∙ without_round-Unlisted round.round_id s.paying alone) in
    omega (arith, parts.0, option, others)
place_round-tokens asked (a ∷ rest) expiring round s alone =
    let others = reserved_by_all-append asked s.paying (round ∷ []) in omega (arith, others)

committed_round-reserved :
    (asked : String) (round : ActiveRound) (expiry_ts : ℕ) (test : FundedAsset → Bool)
    (s : KeeperState)
    → reserved_by asked
        (committed_round round expiry_ts (release_where test (or_empty round.assets) s).0)
      ≡ reserved asked (release_where test (or_empty round.assets) s).0
unfolding committed_round kept_assets reserved release_where
committed_round-reserved asked round expiry_ts test s = go round.assets
  where
    go :
        (before : Option (List FundedAsset))
        → reserved asked (or_empty (kept_assets before (release_where test (or_empty before) s).0))
          ≡ reserved asked (release_where test (or_empty before) s).0
    go none = refl
    go (some assets) = refl

-- Handing a round over, whether it is then paid or ends at once, keeps what is accounted for of each
-- mint.
pub hand_over-tokens :
    (asked : String) (prepared : PreparedRound) (expiry_ts : ℕ) (round : ActiveRound)
    (s : KeeperState)
    → reserved_by_option asked s.round ≡ reserved_by asked round
    → Unlisted round.round_id s.paying
    → tokens asked (hand_over prepared expiry_ts round s).0 ≡ tokens asked s
unfolding hand_over tokens
hand_over-tokens asked prepared expiry_ts round s current alone =
    let test = is_left_out prepared in
    let assets = or_empty round.assets in
    let given = release_where_lem asked test assets s in
    let left = release_where test assets s in
    let committed = committed_round round expiry_ts left.0 in
    let placed =
      place_round-tokens asked prepared.assets (expiring_round round expiry_ts prepared) committed
        (record left.1 { round = none }) (subst (Unlisted round.round_id) (sym given.2) alone) in
    let same = committed_round-reserved asked round expiry_ts test s in
    let others = ap (reserved_by_all asked) given.2 in
    omega (arith, placed, same, given.0, current, others)

module _ (client : Client) (rpc : Rpc) (keeper : String) (policy : RoundPolicy) where
  -- Sending the commitment changes neither the round's id nor its assets.
  send_commit-same :
      (now : ℕ) (prepared : PreparedRound) (round : ActiveRound) (before : Option RoundHeader)
      {sent : ActiveRound}
      → send_commit client rpc keeper policy now prepared round before ≡ ok sent
      → (sent.round_id ≡ round.round_id) × (sent.assets ≡ round.assets)
  unfolding send_commit charge_round
  send_commit-same now prepared round (some header) h =
      let same = ok-inj h in (ap (λ r. r.round_id) (sym same), ap (λ r. r.assets) (sym same))
  send_commit-same now prepared round none h =
      let (signature, answered, e) =
        >>=-eq-ok
          (ask (
            client.commit_round round.round_id prepared.assets_root prepared.manifest_hash
              (length prepared.assets) (now + number_part policy.round_expiry_secs)))
          _ h in
      let same = ok-inj e in (ap (λ r. r.round_id) (sym same), ap (λ r. r.assets) (sym same))

  -- A commit that returns keeps what is accounted for of each mint, whether the round goes on to be
  -- paid or has nothing to pay, where it is the collecting round and no paying round has its id.
  pub commit-tokens :
      (asked : String) (bundle : Answer PreparedRound) (now : ℕ) (round : ActiveRound)
      (s : KeeperState) {after : KeeperState} {report : Report}
      → s.round ≡ some round
      → Unlisted round.round_id s.paying
      → commit client rpc keeper policy bundle now round s ≡ ok (after, report)
      → tokens asked after ≡ tokens asked s
  unfolding commit reserved
  commit-tokens asked bundle now round s current alone h =
      let (prepared, loaded, h1) = >>=-eq-ok (load_prepared bundle round) _ h in
      let (before, fetched, h2) = >>=-eq-ok (ask (client.fetch_round 0 round.round_id)) _ h1 in
      let (sent, sending, h3) =
        >>=-eq-ok (send_commit client rpc keeper policy now prepared round before) _ h2 in
      let (header, found, h4) = >>=-eq-ok (ask (client.fetch_round 1 round.round_id)) _ h3 in
      let (expiry_ts, checked, h5) =
        >>=-eq-ok (check_header client rpc keeper policy sent header) _ h4 in
      let same = send_commit-same now prepared round before sending in
      let reserved_same = ap (λ assets. reserved asked (or_empty assets)) same.1 in
      let kept =
        hand_over-tokens asked prepared expiry_ts sent s
          (ap (reserved_by_option asked) current ∙ sym reserved_same)
          (subst (λ id. Unlisted id s.paying) (sym same.0) alone) in
      sym (ap (λ r. tokens asked r.0) (ok-inj h5)) ∙ kept
