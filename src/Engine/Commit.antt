-- ===== src/Engine/Commit.antt =====
-- How keeper/round/engine.ts prepares a funded round and commits it.
pub mod Kept
pub mod Safe
use Prim.Native.String.{String}
use text.Mathlib.Text.{◌==◌ as str_eq}
use stonkfolio.Prelude.{
  ℕ, ◌+◌, List, [], ◌∷◌, ◌++◌, map, length, Option, none, some, Bool, false, not, Result, err, ok,
  ◌>>=◌, ◌>>◌, require, if◌then◌else◌,
}
use stonkfolio.Prelude.Maps.{has}
use stonkfolio.Send.{Rpc}
use stonkfolio.Round.Types.{PayoutLeafRow}
use stonkfolio.Round.Policy.{RoundPolicy, number_part}
use stonkfolio.Store.{
  KeeperState, ActiveRound, RoundStatus, FundedAsset, ExpiringRound, ExpiringAsset,
}
use stonkfolio.Engine.{
  Answer, ask, Error, commit_did_not_land, other_root, other_bundle, Client, Report, worked,
  RoundHeader, with_round,
}
use stonkfolio.Engine.Costs.{charge_round}
use stonkfolio.Engine.Finish.{or_empty, release_where, finish_paying}

pub record PreparedAsset : Type 0 where
  pub asset_idx : ℕ
  pub mint : String
  pub token_program : String

-- What one purchase of the round paid.
pub record PaidPrice : Type 0 where
  pub mint : String
  pub lamports_spent : ℕ
  pub received : ℕ

-- What the engine reads of a `PreparedRound`; the leaves are those of each asset by its index.
pub record PreparedRound : Type 0 where
  pub assets_root : String
  pub manifest_hash : String
  pub assets : List PreparedAsset
  pub leaves : List (List PayoutLeafRow)
  pub purchases : List PaidPrice

abbrev pub is_text : Option String → String → Bool
is_text none text = false
is_text (some other) text = str_eq other text

-- `prepare`, with the prepared round and its publication as answers.
unfoldable pub prepare :
    Answer PreparedRound
    → (published : Answer Unit) → ActiveRound
    → KeeperState
    → Result Error (KeeperState × Report)
prepare built published round s = do
  prepared ← ask built
  done ← ask published
  ok (
    with_round
        (record round {
          manifest_hash_hex = some prepared.manifest_hash;
          assets_root_hex = some prepared.assets_root;
          status = RoundStatus.prepared;
        })
        s,
    worked,
  )

-- The round that the bundle on disk reproduces.
unfoldable pub load_prepared : Answer PreparedRound → ActiveRound → Result Error PreparedRound
load_prepared bundle round = do
  prepared ← ask bundle
  require (is_text round.manifest_hash_hex prepared.manifest_hash) other_bundle
  ok prepared

-- The coins that the allocation left out.
unfoldable pub is_left_out : PreparedRound → FundedAsset → Bool
unfolding has
is_left_out prepared asset = not (has asset.mint (map (λ a. a.mint) prepared.assets))

expiring_asset : PreparedAsset → ExpiringAsset
expiring_asset a = record {
  asset_idx = a.asset_idx;
  mint = a.mint;
  token_program = a.token_program;
  attempts = 0;
  next_attempt_at = none;
}

expiring_round : ActiveRound → (expiry_ts : ℕ) → PreparedRound → ExpiringRound
unfolding expiring_asset
expiring_round round expiry_ts prepared = record {
  round_id = round.round_id;
  expiry_ts = expiry_ts;
  assets = map expiring_asset prepared.assets;
}

-- The assets after their release, where there are any.
kept_assets : Option (List FundedAsset) → List FundedAsset → Option (List FundedAsset)
kept_assets none assets = none
kept_assets (some before) assets = some assets

committed_round : ActiveRound → (expiry_ts : ℕ) → List FundedAsset → ActiveRound
unfolding kept_assets
committed_round round expiry_ts assets = record round {
  expiry_ts = some expiry_ts;
  status = RoundStatus.committed;
  assets = kept_assets round.assets assets;
}

-- A round with nothing to pay is finished at once; any other joins the paying rounds, and the rounds
-- whose leftovers are recovered after expiry.
place_round : List PreparedAsset → ExpiringRound → ActiveRound → KeeperState → KeeperState × Report
unfolding finish_paying
place_round [] expiring round s = finish_paying round s
place_round (a ∷ rest) expiring round s =
    (record s { expiring = s.expiring ++ expiring ∷ []; paying = s.paying ++ round ∷ [] }, worked)

-- Once the commitment is on chain: the round leaves the collecting slot.
unfoldable pub hand_over :
    PreparedRound → (expiry_ts : ℕ) → ActiveRound → KeeperState → KeeperState × Report
unfolding release_where is_left_out place_round committed_round expiring_round
hand_over prepared expiry_ts round s =
    let (assets, released) = release_where (is_left_out prepared) (or_empty round.assets) s in
    place_round prepared.assets (expiring_round round expiry_ts prepared)
      (committed_round round expiry_ts assets) (record released { round = none })

module _ (client : Client) (rpc : Rpc) (keeper : String) (policy : RoundPolicy) where
  -- Sent unless the round is already on chain.
  send_commit :
      (now : ℕ) → PreparedRound → ActiveRound → Option RoundHeader → Result Error ActiveRound
  send_commit now prepared round (some header) = ok round
  send_commit now prepared round none = do
    signature ← ask (
        client.commit_round round.round_id prepared.assets_root prepared.manifest_hash
          (length prepared.assets) (now + number_part policy.round_expiry_secs))
    ok (
        charge_round rpc keeper (some signature)
          (record round { commit_signature = some signature }))

  check_header : ActiveRound → Option RoundHeader → Result Error ℕ
  check_header round none = err commit_did_not_land
  check_header round (some header) =
      if is_text round.assets_root_hex header.assets_root
      then ok header.expiry_ts
      else err other_root

  unfoldable pub commit :
      (bundle : Answer PreparedRound) (now : ℕ)
      → ActiveRound
      → KeeperState
      → Result Error (KeeperState × Report)
  unfolding load_prepared send_commit check_header hand_over charge_round
  commit bundle now round s = do
    prepared ← load_prepared bundle round
    before ← ask (client.fetch_round 0 round.round_id)
    sent ← send_commit now prepared round before
    header ← ask (client.fetch_round 1 round.round_id)
    expiry_ts ← check_header sent header
    ok (hand_over prepared expiry_ts sent s)
