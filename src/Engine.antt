-- ===== src/Engine.antt =====
-- keeper/round/engine.ts: the payout rounds of one coin, one step at a time. Each handler is a function
-- of the saved state, of the clock and of what the node, the distributor program and the swap service
-- answer in that step. An answer is a value or the text of the error that the call throws; a call that a
-- step makes twice is numbered. Of a report only its kind is kept, since `advance` reads its first word;
-- error texts are kept whole. Files under the round's directory are not part of the state.
pub mod Costs
mod Tests
pub mod Opening
pub mod Collect
pub mod Seed
pub mod Buy
pub mod Settle
pub mod Reserve
pub mod Finish
pub mod Commit
pub mod Activate
pub mod Push
pub mod Close
pub mod Queue
pub mod Basket
pub mod Step
pub mod Safe
use Prim.Native.String.{String}
use stonkfolio.Prelude.{
  ℕ, ◌+◌, ◌*◌, Bool, true, false, ◌&&◌, ◌||◌, ◌==◌, List, [], ◌∷◌, Option, none, some, Result, err,
  ok,
}
use stonkfolio.Prelude.Int.{ℤ}
use stonkfolio.Round.Policy.{codes_of}
use stonkfolio.Store.{KeeperState, ActiveRound, RoundStatus}

pub record RoundParams : Type 0 where
  pub mean_snapshot_interval_secs : ℕ
  pub max_window_secs : ℕ
  pub round_cost_max_bps : ℕ
  pub expected_basket_size : ℕ
  pub priority_fee_lamports_per_tx : ℕ
  pub swap_impact_bps : ℕ
  pub swap_overhead_lamports : ℕ
  pub max_buy_attempts : ℕ
  pub max_buy_phase_secs : ℕ
  pub max_transfer_fee_bps : ℕ
  pub max_activation_attempts : ℕ
  pub max_pushes_per_step : ℕ
  pub max_push_attempts : ℕ

-- `collecting` and `waiting` are the first words that let a paying round have the step.
pub data Report : Type 0 where
  collecting waiting worked : Report

pub data IntentStatus : Type 0 where
  opened closed seeded committed abandoned : IntentStatus

pub record IntentView : Type 0 where
  pub round_id : ℕ
  pub status : IntentStatus
  pub open_slot : ℕ
  pub open_ts : ℕ
  pub close_slot : ℕ
  pub close_ts : ℕ
  pub snapshot_count : ℕ
  pub snapshot_chain_head_hex : String
  pub secret_commitment_hex : String
  pub seed_hash_hex : String

pub data Error : Type 0 where
  thrown : (text : String) → Error
  not_collecting : (status : RoundStatus) → Error
  other_commitment close_did_not_land foreign_chain not_seeded : Error
  no_payouts_per_transaction : Error
  commit_did_not_land other_root other_bundle : Error
  no_reservation : (mint : String) → Error

-- What an outside call gives.
abbrev pub Answer : Type 0 → Type 0
Answer A = Result String A

abbrev pub ask : {A : Type 0} → Answer A → Result Error A
ask (err text) = err (thrown text)
ask (ok value) = ok value

-- What the distributor program's accounts hold of a round and of one of its assets.
pub record RoundHeader : Type 0 where
  pub assets_root : String
  pub expiry_ts : ℕ

pub record RoundAssetAccount : Type 0 where
  pub is_active : Bool
  pub funded : ℕ
  pub bitmap : List ℕ

pub record Activation : Type 0 where
  pub signature : Option String
  pub transferred : ℕ

-- The calls of `DistributorClient`. A transaction's answer is its signature.
pub record Client : Type 0 where
  pub ensure_distributor : Answer (Option String)
  pub next_round_id : Answer ℕ
  pub fetch_intent : (call round_id : ℕ) → Answer (Option IntentView)
  pub open_round : (round_id : ℕ) (commitment : String) → Answer String
  pub close_window : (round_id : ℕ) (chain_head : String) (snapshots : ℕ) → Answer String
  pub record_seed : (round_id : ℕ) → Answer String
  pub abandon_round : (round_id : ℕ) → Answer String
  pub fetch_round : (call round_id : ℕ) → Answer (Option RoundHeader)
  pub commit_round :
      (round_id : ℕ) (assets_root artifact_hash : String) (asset_count expiry_ts : ℕ)
      → Answer String
  pub fetch_round_asset : (round_id asset_idx : ℕ) → Answer (Option RoundAssetAccount)
  pub open_fund_activate : (round_id asset_idx reserved : ℕ) → Answer Activation
  pub close_asset : (round_id asset_idx : ℕ) → Answer String
  pub vault_balance : (round_id asset_idx : ℕ) → Answer ℕ
  pub net_after_transfer_fee : (mint token_program : String) (gross : ℕ) → Answer ℕ
  pub gross_for_net : (mint token_program : String) (net : ℕ) → Answer ℕ

-- `/word/.test(text)` for a word without special characters.
begins : (word text : List ℕ) → Bool
begins [] text = true
begins (c ∷ word) [] = false
begins (c ∷ word) (d ∷ text) = (c == d) && begins word text

occurs : (word text : List ℕ) → Bool
unfolding begins
occurs word [] = begins word []
occurs word (d ∷ text) = begins word (d ∷ text) || occurs word text

unfoldable pub mentions : (word text : String) → Bool
unfolding occurs
mentions word text = occurs (codes_of word) (codes_of text)

-- The engine's own memory, which outlives a step, and the state on disk.
pub record Memory : Type 0 where
  pub disk : KeeperState
  pub confirmed_open : Option ℕ

-- Code that may save the state, note a confirmed intent, and throw; what it saved and noted stays.
abbrev pub Run : Type 0 → Type 0
Run A = Memory → Memory × Result Error A

infixl 5 ◌>>=◌ ◌>>◌
unfoldable pub ◌>>=◌ : {A B : Type 0} → Run A → (A → Run B) → Run B
(first >>= next) memory =
    let (after, result) = first memory in
    elim result [ err failure ↦ (after, err failure) | ok value ↦ next value after ]

abbrev pub ◌>>◌ : {B : Type 0} → Run Unit → Run B → Run B
first >> second = first >>= λ done. second

unfoldable pub return : {A : Type 0} → A → Run A
return value memory = (memory, ok value)

unfoldable pub lift : {A : Type 0} → Result Error A → Run A
lift result memory = (memory, result)

-- `store.save(state)`
unfoldable pub save : KeeperState → Run Unit
save state memory = (record memory { disk = state }, ok tt)

-- `this.confirmedOpen = id`
unfoldable pub confirm : Option ℕ → Run Unit
confirm id memory = (record memory { confirmed_open = id }, ok tt)

-- `throw error`
unfoldable pub throw : {A : Type 0} → Error → Run A
throw failure memory = (memory, err failure)

-- `this.confirmedOpen`
unfoldable pub recall : Run (Option ℕ)
recall memory = (memory, ok memory.confirmed_open)

-- A step's state with the round written back into it.
abbrev pub with_round : ActiveRound → KeeperState → KeeperState
with_round round s = record s { round = some round }
