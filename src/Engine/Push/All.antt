-- ===== src/Engine/Push/All.antt =====
-- A block of payouts of keeper/round/engine.ts whose transactions are all accepted.
use stonkfolio.Prelude.{
  ℕ, zero, suc, ◌+◌, ◌^◌, ◌≡◌, List, [], ◌∷◌, length, none, true, ok, arith, Bool-cases, inl, inr,
  refl,
}
use native.Mathlib.Nat.{pow-suc}
use stonkfolio.Engine.{RoundParams}
use stonkfolio.Engine.Push.{
  PushPlan, Block, Sender, Pushing, Outcome, in_block, block_of, answer_block, send_block,
  join_halves, is_none_planned, push_block,
}

-- The halves of a block hold all its leaves.
length-halves :
    (first_leaf half : ℕ) (plan : List PushPlan)
    → length (in_block first_leaf half (in_block first_leaf (suc half) plan))
        + length (in_block (first_leaf + 2 ^ half) half (in_block first_leaf (suc half) plan))
      ≡ length (in_block first_leaf (suc half) plan)
length-halves first_leaf half [] = omega arith
length-halves first_leaf half (p ∷ rest) =
    ground (arith, length-halves first_leaf half rest, pow-suc 2 half)

is_none_planned-length :
    (sender : Sender) (params : RoundParams) (asset_idx now : ℕ) (plan : List PushPlan)
    → is_none_planned sender params asset_idx now plan ≡ true
    → length plan ≡ 0
unfolding is_none_planned
is_none_planned-length sender params asset_idx now [] h = refl
is_none_planned-length sender params asset_idx now (p ∷ rest) h = cc

module _ (sender : Sender) (params : RoundParams) (asset_idx now : ℕ) where
  -- An outcome that counts so many leaves and does not pause.
  Counts : ℕ → Outcome × Pushing → Type 0
  Counts n result = (result.0.pushed ≡ n) × (result.0.paused ≡ none)

  send_block-Counts :
      (block : Block) (st : Pushing)
      → sender.send block ≡ ok tt
      → Counts (length block.planned) (send_block sender params asset_idx now block st)
  unfolding Counts send_block answer_block
  send_block-Counts block st sent = rw sent (refl, refl)

  join_halves-Counts :
      (a b : ℕ) (left : Outcome × Pushing) (right : Pushing → Outcome × Pushing)
      → Counts a left
      → ((mid : Pushing) → Counts b (right mid))
      → Counts (a + b) (join_halves sender params asset_idx now left right)
  unfolding Counts join_halves
  join_halves-Counts a b (left, mid) right h k = rw h.1 (omega (arith, h.0, (k mid).0), (k mid).1)

  -- Where every transaction is accepted, every leaf that is planned in the block is pushed, however it
  -- is halved to fit, and the payouts do not pause.
  pub push_block-all :
      ((block : Block) → sender.send block ≡ ok tt)
      → (level first_leaf : ℕ) (plan : List PushPlan) (st : Pushing)
      → ((push_block sender params asset_idx now level first_leaf plan st).0.pushed
          ≡ length (in_block first_leaf level plan))
        × ((push_block sender params asset_idx now level first_leaf plan st).0.paused ≡ none)
  unfolding push_block Counts
  push_block-all accepted zero first_leaf plan st =
      let planned = in_block first_leaf zero plan in
      elim (Bool-cases (is_none_planned sender params asset_idx now planned)) [
        | inl e ↦
            rw e (omega (arith, is_none_planned-length sender params asset_idx now planned e), refl)
        | inr e ↦ rw e (
            send_block-Counts (block_of sender params asset_idx now first_leaf zero planned) st
              (accepted _))
      ]
  push_block-all accepted (suc half) first_leaf plan st =
      let planned = in_block first_leaf (suc half) plan in
      let block = block_of sender params asset_idx now first_leaf (suc half) planned in
      let right = first_leaf + 2 ^ half in
      elim (Bool-cases (is_none_planned sender params asset_idx now planned)) [
        | inl e ↦
            rw e (omega (arith, is_none_planned-length sender params asset_idx now planned e), refl)
        | inr e ↦ rw e (elim (Bool-cases (sender.fits block)) [
          | inl f ↦ rw f (send_block-Counts block st (accepted block))
          | inr f ↦ rw f (
              let halves =
                join_halves-Counts (length (in_block first_leaf half planned))
                  (length (in_block right half planned))
                  (push_block sender params asset_idx now half first_leaf planned st)
                  (push_block sender params asset_idx now half right planned)
                  (push_block-all accepted half first_leaf planned st)
                  (λ mid. push_block-all accepted half right planned mid) in
              (omega (arith, halves.0, length-halves first_leaf half plan), halves.1))
        ])
      ]
