-- ===== src/Engine/Queue.antt =====
-- `push` of keeper/round/engine.ts: which payouts are due in a step, which of them are worth a push,
-- and the pushes themselves.
pub mod Safe
pub mod Due
use Prim.Native.String.{String}
use text.Mathlib.Text.{◌==◌ as str_eq}
use stonkfolio.Prelude.{
  ℕ, zero, suc, ◌+◌, ◌^◌, ◌/◌, ◌%◌, List, [], ◌∷◌, ◌++◌, length, take, drop, get_or, Option, none,
  some, Bool, true, false, ltb, leb, ◌==◌, Result, ok, ◌>>=◌, if◌then◌else◌,
}
use stonkfolio.Ledger.{Price, should_auto_push}
use stonkfolio.Round.Types.{PayoutLeafRow}
use stonkfolio.Round.Policy.{RoundPolicy, number_part}
use stonkfolio.Round.Trigger.{ceil_div}
use stonkfolio.Store.{KeeperState, ActiveRound, FundedAsset, FundStatus, PayoutFailure}
use stonkfolio.Engine.{
  Answer, ask, Error, Client, RoundAssetAccount, RoundParams, Report, waiting, worked,
}
use stonkfolio.Engine.Opening.{or_zero}
use stonkfolio.Engine.Finish.{or_empty, finish_paying}
use stonkfolio.Engine.Commit.{PreparedAsset, PreparedRound, PaidPrice}
use stonkfolio.Engine.Activate.{Progress, find_asset}
use stonkfolio.Engine.Push.{
  PushPlan, Sender, Pushing, failure_of, record_failure, push_block, attempts_of,
}

abbrev pub push_block_level : ℕ
push_block_level = 3

abbrev pub push_block_size : ℕ
push_block_size = 8

-- A bit of the asset's bitmap; a place after its end counts as not claimed.
unfoldable pub is_leaf_claimed : (bitmap : List ℕ) (leaf_idx : ℕ) → Bool
is_leaf_claimed bitmap leaf_idx = get_or bitmap (leaf_idx / 8) 0 / 2 ^ (leaf_idx % 8) % 2 == 1

pub record Candidate : Type 0 where
  pub leaf : PayoutLeafRow
  pub failure : Option PayoutFailure

pub record QueuedBlock : Type 0 where
  pub asset : PreparedAsset
  pub first_leaf : ℕ
  pub candidates : List Candidate

pub record Queue : Type 0 where
  pub blocks : List QueuedBlock
  pub queued : ℕ
  pub deferred : ℕ

abbrev pub is_permanent : Option PayoutFailure → Bool
is_permanent none = false
is_permanent (some f) = f.permanent

abbrev pub retry_at : Option PayoutFailure → ℕ
retry_at none = 0
retry_at (some f) = or_zero f.next_attempt_at

is_active : Option FundedAsset → Bool
is_active none = false
is_active (some a) = elim a.status [ FundStatus.active ↦ true | _ ↦ false ]

module _ (bitmap : List ℕ) (failures : List PayoutFailure) (asset_idx now : ℕ) where
  -- The leaves of a block that are due, and how many wait for their next attempt.
  unfoldable pub candidates_of : List PayoutLeafRow → List Candidate × ℕ
  unfolding is_leaf_claimed failure_of
  candidates_of [] = ([], 0)
  candidates_of (leaf ∷ rest) =
      let (later, waits) = candidates_of rest in
      let failure = failure_of asset_idx leaf.leaf_idx failures in
      if is_leaf_claimed bitmap leaf.leaf_idx
      then (later, waits)
      else if is_permanent failure
      then (later, waits)
      else if ltb now (retry_at failure)
      then (later, suc waits)
      else (record { leaf = leaf; failure = failure } ∷ later, waits)

module _ (params : RoundParams) (now : ℕ) where
  -- One block of an asset: queued, or deferred once a step's worth is queued.
  add_block : PreparedAsset → (first_leaf : ℕ) → List Candidate × ℕ → Queue → Queue
  add_block asset first_leaf (found, waits) q =
      let waiting = record q { deferred = q.deferred + waits } in
      if length found == 0
      then waiting
      else if leb params.max_pushes_per_step q.queued
      then record waiting { deferred = waiting.deferred + length found }
      else record waiting {
        blocks =
            q.blocks ++ record { asset = asset; first_leaf = first_leaf; candidates = found } ∷ [];
        queued = q.queued + length found;
      }

  -- The blocks of one asset, so many from a first leaf on.
  queue_blocks :
      PreparedAsset
      → (bitmap : List ℕ) → List PayoutFailure
      → (count first_leaf : ℕ) → List PayoutLeafRow
      → Queue
      → Queue
  unfolding add_block candidates_of
  queue_blocks asset bitmap failures zero first_leaf leaves q = q
  queue_blocks asset bitmap failures (suc count) first_leaf leaves q =
      queue_blocks asset bitmap failures count (first_leaf + push_block_size)
        (drop push_block_size leaves)
        (add_block asset first_leaf
          (candidates_of bitmap failures asset.asset_idx now (take push_block_size leaves)) q)

  queue_account :
      PreparedAsset
      → List PayoutFailure
      → List PayoutLeafRow
      → Option RoundAssetAccount
      → Queue
      → Queue
  unfolding queue_blocks
  queue_account asset failures leaves none q = q
  queue_account asset failures leaves (some account) q =
      queue_blocks asset account.bitmap failures (ceil_div (length leaves) push_block_size) 0 leaves
        q

  -- The queue over the assets that are active.
  unfoldable pub queue_assets :
      Client → PreparedRound → ActiveRound → List PreparedAsset → Queue → Result Error Queue
  unfolding queue_account is_active find_asset
  queue_assets client prepared round [] q = ok q
  queue_assets client prepared round (asset ∷ rest) q =
      elim (is_active (find_asset asset.mint (or_empty round.assets))) [
        | false ↦ queue_assets client prepared round rest q
        | true ↦ do
          account ← ask (client.fetch_round_asset round.round_id asset.asset_idx)
          let leaves = get_or prepared.leaves asset.asset_idx []
          queue_assets client prepared round rest
              (queue_account asset round.failures leaves account q)
      ]

-- `prices.get(mint)`: a later purchase of a mint replaces an earlier one.
unfoldable pub price_of : String → List PaidPrice → Option Price
price_of mint [] = none
price_of mint (p ∷ rest) = elim (price_of mint rest) [
  | some found ↦ some found
  | none ↦
      if str_eq p.mint mint
      then some (record { lamports = p.lamports_spent; tokens = p.received })
      else none
]

-- Which destinations exist, the rent of an account of so many bytes, and the size of a Token-2022
-- mint's token accounts.
pub record Accounts : Type 0 where
  pub exists : (mint recipient : String) → Bool
  pub rent : ℕ → Answer ℕ
  pub account_len : (mint : String) → Answer ℕ
  pub token_2022_program : String

unfoldable pub token_account_rent : Accounts → (mint token_program : String) → Result Error ℕ
token_account_rent accounts mint token_program =
    elim (str_eq token_program accounts.token_2022_program) [
      | false ↦ ask (accounts.rent 165)
      | true ↦ do space ← ask (accounts.account_len mint); ask (accounts.rent space)
    ]

module _ (accounts : Accounts) (policy : RoundPolicy) (prepared : PreparedRound) where
  -- No rent where the account exists.
  rent_of : PreparedAsset → (recipient : String) → Result Error ℕ
  unfolding token_account_rent
  rent_of asset recipient = elim (accounts.exists asset.mint recipient) [
    | true ↦ ok 0
    | false ↦ token_account_rent accounts asset.mint asset.token_program
  ]

  -- The recorded reason says the same without the multiple.
  too_small : PreparedAsset → Candidate → PayoutFailure
  too_small asset c = record {
    asset_idx = asset.asset_idx;
    leaf_idx = c.leaf.leaf_idx;
    recipient = c.leaf.recipient;
    attempts = attempts_of c.failure;
    permanent = true;
    reason = "left for self-claim";
    next_attempt_at = elim c.failure [ none ↦ none | some f ↦ f.next_attempt_at ];
  }

  -- The plan of a block: what is not worth a push is left for its holder to claim.
  unfoldable pub plan_block :
      PreparedAsset → List Candidate → Pushing → Result Error (List PushPlan × Pushing)
  unfolding rent_of too_small record_failure should_auto_push price_of
  plan_block asset [] st = ok ([], st)
  plan_block asset (c ∷ rest) st = do
    rent ← rent_of asset c.leaf.recipient
    let worth =
        should_auto_push (accounts.exists asset.mint c.leaf.recipient) c.leaf.amount
          (price_of asset.mint prepared.purchases) rent
          (number_part policy.auto_push_min_rent_multiple)
    let noted = if worth then st else record_failure (too_small asset c) st
    (plan, after) ← plan_block asset rest noted
    let entry : PushPlan = record { leaf = c.leaf; failure = c.failure; rent = rent }
    ok (if worth then entry ∷ plan else plan, after)

  module _ (sender : Sender) (params : RoundParams) (now : ℕ) where
    -- The loop over the blocks, up to the first pause.
    unfoldable pub push_blocks : List QueuedBlock → Pushing → Result Error (Report × Pushing)
    unfolding plan_block push_block
    push_blocks [] st = ok (worked, st)
    push_blocks (b ∷ rest) st = do
      (plan, noted) ← plan_block b.asset b.candidates st
      let (outcome, after) =
          push_block sender params b.asset.asset_idx now push_block_level b.first_leaf plan noted
      elim outcome.paused [ some text ↦ ok (waiting, after) | none ↦ push_blocks rest after ]

    -- The branches on the queue; the blocks sent are the trace of the step.
    push_queue : Queue → ActiveRound → KeeperState → Result Error (Progress × Pushing)
    unfolding push_blocks finish_paying
    push_queue q round s =
        let idle : Pushing = record { round = round; sent = [] } in
        elim (length q.blocks == 0) [
          | true ↦
              if ltb 0 q.deferred
              then ok (record { round = round; state = s; backing_off = true; report = none }, idle)
              else let (finished, report) = finish_paying round s in
                ok (
                  record {
                    round = round;
                    state = finished;
                    backing_off = false;
                    report = some report;
                  },
                  idle,
                )
          | false ↦ do
            (report, st) ← push_blocks q.blocks idle
            ok (
              record { round = st.round; state = s; backing_off = false; report = some report },
              st,
            )
        ]

    unfoldable pub push : Client → ActiveRound → KeeperState → Result Error (Progress × Pushing)
    unfolding queue_assets push_queue
    push client round s = do
      q ←
          queue_assets params now client prepared round prepared.assets
            (record { blocks = []; queued = 0; deferred = 0 })
      push_queue q round s
