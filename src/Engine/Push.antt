-- ===== src/Engine/Push.antt =====
-- How keeper/round/engine.ts pushes payouts in aligned blocks.
pub mod Safe
pub mod Once
pub mod All
use Prim.Native.String.{String}
use stonkfolio.Prelude.{
  ℕ, zero, suc, ◌+◌, ◌^◌, List, [], ◌∷◌, map, filter, any, length, Option, none, some, Bool, true,
  false, not, ◌&&◌, ◌||◌, ltb, leb, ◌==◌, err, ok, if◌then◌else◌,
}
use stonkfolio.Prelude.Int.{pos, ◌+ℤ◌}
use stonkfolio.Prelude.Sums.{sum}
use stonkfolio.Ledger.{backoff_secs}
use stonkfolio.Round.Types.{PayoutLeafRow}
use stonkfolio.Round.Trigger.{lamports_per_signature}
use stonkfolio.Store.{ActiveRound, PayoutFailure}
use stonkfolio.Engine.{Answer, RoundParams}

-- `PushPlan`: `rent` is not 0 where the payout's token account must be created.
pub record PushPlan : Type 0 where
  pub leaf : PayoutLeafRow
  pub failure : Option PayoutFailure
  pub rent : ℕ

-- What a push transaction is made of: its block, and the leaves of it that are pushed.
pub record Block : Type 0 where
  pub asset_idx : ℕ
  pub first_leaf : ℕ
  pub level : ℕ
  pub planned : List PushPlan

-- The test for size, the sending, and the tests on error texts, which are regular expressions.
pub record Sender : Type 0 where
  pub fits : Block → Bool
  pub send : Block → Answer Unit
  pub is_transient : String → Bool
  pub is_permanent : String → Bool

-- The round while payouts go out, and the blocks that were sent, the last one first.
pub record Pushing : Type 0 where
  pub round : ActiveRound
  pub sent : List Block

-- `paused` is the error for which the payouts pause.
pub record Outcome : Type 0 where
  pub pushed : ℕ
  pub transactions : ℕ
  pub paused : Option String

abbrev pub is_failure_of : (asset_idx leaf_idx : ℕ) → PayoutFailure → Bool
is_failure_of asset_idx leaf_idx f = (f.asset_idx == asset_idx) && (f.leaf_idx == leaf_idx)

-- `failures.find(...)`
unfoldable pub failure_of : (asset_idx leaf_idx : ℕ) → List PayoutFailure → Option PayoutFailure
failure_of asset_idx leaf_idx [] = none
failure_of asset_idx leaf_idx (f ∷ rest) =
    let later = failure_of asset_idx leaf_idx rest in
    if is_failure_of asset_idx leaf_idx f then some f else later

-- The record replaces the one of its leaf, or is added; a field that is not given keeps its value.
unfoldable pub put_failure : PayoutFailure → List PayoutFailure → List PayoutFailure
put_failure new [] = new ∷ []
put_failure new (f ∷ rest) =
    let later = put_failure new rest in
    if is_failure_of new.asset_idx new.leaf_idx f then new ∷ rest else f ∷ later

abbrev pub attempts_of : Option PayoutFailure → ℕ
attempts_of none = 0
attempts_of (some f) = f.attempts

-- The reason is kept whole.
unfoldable pub record_failure : PayoutFailure → Pushing → Pushing
unfolding put_failure
record_failure f st = record st {
  round = record st.round { failures = put_failure f st.round.failures };
}

-- The failures of the leaves that were just paid, as the plan knows them.
abbrev pub is_done : (asset_idx : ℕ) → List PushPlan → PayoutFailure → Bool
is_done asset_idx plan f =
    any (λ p. elim p.failure [ none ↦ false | some g ↦ is_failure_of asset_idx p.leaf.leaf_idx f ])
      plan

-- The round after a block was sent: its costs, and no failures of its leaves.
unfoldable pub paid : Block → Pushing → Pushing
unfolding sum
paid block st = record {
  round = record st.round {
    operations_spent_lamports =
        st.round.operations_spent_lamports
        +ℤ pos (lamports_per_signature + sum (map (λ p. p.rent) block.planned));
    failures = filter (λ f. not (is_done block.asset_idx block.planned f)) st.round.failures;
  };
  sent = block ∷ st.sent;
}

-- A block's leaves by the place of their leaf.
abbrev pub in_block : (first_leaf level : ℕ) → List PushPlan → List PushPlan
in_block first_leaf level plan =
    filter (λ p. leb first_leaf p.leaf.leaf_idx && ltb p.leaf.leaf_idx (first_leaf + 2 ^ level))
      plan

module _ (sender : Sender) (params : RoundParams) (asset_idx now : ℕ) where
  abbrev pub block_of : (first_leaf level : ℕ) → List PushPlan → Block
  block_of first_leaf level planned = record {
    asset_idx = asset_idx;
    first_leaf = first_leaf;
    level = level;
    planned = planned;
  }

  -- The failure of a leaf in a transaction that could not be delivered.
  pause_failure : (text : String) → PushPlan → PayoutFailure
  pause_failure text p = record {
    asset_idx = asset_idx;
    leaf_idx = p.leaf.leaf_idx;
    recipient = p.leaf.recipient;
    attempts = attempts_of p.failure;
    permanent = false;
    reason = text;
    next_attempt_at = some (now + 30);
  }

  -- The failure of the only leaf in a transaction that the program refused.
  refusal : (text : String) → PushPlan → PayoutFailure
  unfolding backoff_secs
  refusal text p =
      let attempts = suc (attempts_of p.failure) in
      record {
        asset_idx = asset_idx;
        leaf_idx = p.leaf.leaf_idx;
        recipient = p.leaf.recipient;
        attempts = attempts;
        permanent = sender.is_permanent text || leb params.max_push_attempts attempts;
        reason = text;
        next_attempt_at = some (now + backoff_secs attempts 30 21_600);
      }

  unfoldable pub pause_all : (text : String) → List PushPlan → Pushing → Pushing
  unfolding pause_failure record_failure
  pause_all text [] st = st
  pause_all text (p ∷ rest) st = pause_all text rest (record_failure (pause_failure text p) st)

  -- The branches of an answer for a leaf that is sent on its own.
  answer_single : Answer Unit → PushPlan → Pushing → Outcome × Pushing
  unfolding paid refusal pause_all record_failure
  answer_single (ok done) p st = (
    record { pushed = 1; transactions = 1; paused = none },
    paid (block_of p.leaf.leaf_idx 0 (p ∷ [])) st,
  )
  answer_single (err text) p st =
      if sender.is_transient text
      then (record { pushed = 0; transactions = 1; paused = some text }, pause_all text (p ∷ []) st)
      else (
        record { pushed = 0; transactions = 1; paused = none },
        record_failure (refusal text p) st,
      )

  -- `pushBlock` at level 0 with a plan of one.
  unfoldable pub push_single : PushPlan → Pushing → Outcome × Pushing
  unfolding answer_single
  push_single p st = answer_single (sender.send (block_of p.leaf.leaf_idx 0 (p ∷ []))) p st

  -- The outcome so far, with that of one more leaf.
  joined : Outcome → Outcome → Outcome
  joined o single = record {
    pushed = o.pushed + single.pushed;
    transactions = o.transactions + single.transactions;
    paused = single.paused;
  }

  -- The loop over the leaves of a refused block, up to the first pause; the outcome starts from the
  -- block's own transaction.
  unfoldable pub push_singles : List PushPlan → Outcome × Pushing → Outcome × Pushing
  unfolding push_single joined
  push_singles [] (o, st) = (o, st)
  push_singles (p ∷ rest) (o, st) =
      let (single, after) = push_single p st in
      let later = push_singles rest (joined o single, after) in
      elim single.paused [ some text ↦ (joined o single, after) | none ↦ later ]

  -- The branches of a refused block: one leaf is to blame, and several are sent one at a time.
  refused_block : (text : String) → List PushPlan → Pushing → Outcome × Pushing
  unfolding push_singles refusal record_failure
  refused_block text [] st = (record { pushed = 0; transactions = 1; paused = none }, st)
  refused_block text (p ∷ []) st =
      (record { pushed = 0; transactions = 1; paused = none }, record_failure (refusal text p) st)
  refused_block text (p ∷ q ∷ rest) st =
      push_singles (p ∷ q ∷ rest) (record { pushed = 0; transactions = 1; paused = none }, st)

  answer_block : Answer Unit → Block → Pushing → Outcome × Pushing
  unfolding paid pause_all refused_block
  answer_block (ok done) block st =
      (record { pushed = length block.planned; transactions = 1; paused = none }, paid block st)
  answer_block (err text) block st =
      if sender.is_transient text
      then (
        record { pushed = 0; transactions = 1; paused = some text },
        pause_all text block.planned st,
      )
      else refused_block text block.planned st

  unfoldable pub send_block : Block → Pushing → Outcome × Pushing
  unfolding answer_block
  send_block block st = answer_block (sender.send block) block st

  abbrev pub nothing : Outcome
  nothing = record { pushed = 0; transactions = 0; paused = none }

  -- The right half after the left one, unless that paused.
  join_halves : (left : Outcome × Pushing) → (Pushing → Outcome × Pushing) → Outcome × Pushing
  join_halves (left, st) right = elim left.paused [
    | some text ↦ (left, st)
    | none ↦
        let (second, after) = right st in
        (
          record {
            pushed = left.pushed + second.pushed;
            transactions = left.transactions + second.transactions;
            paused = second.paused;
          },
          after,
        )
  ]

  is_none_planned : List PushPlan → Bool
  is_none_planned [] = true
  is_none_planned (p ∷ rest) = false

  unfoldable pub push_block : (level first_leaf : ℕ) → List PushPlan → Pushing → Outcome × Pushing
  unfolding send_block join_halves is_none_planned
  push_block zero first_leaf plan st =
      let planned = in_block first_leaf zero plan in
      if is_none_planned planned
      then (nothing, st)
      else send_block (block_of first_leaf zero planned) st
  push_block (suc half) first_leaf plan st =
      let planned = in_block first_leaf (suc half) plan in
      if is_none_planned planned
      then (nothing, st)
      else if sender.fits (block_of first_leaf (suc half) planned)
      then send_block (block_of first_leaf (suc half) planned) st
      else join_halves (push_block half first_leaf planned st)
          (push_block half (first_leaf + 2 ^ half) planned)
