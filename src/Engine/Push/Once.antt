-- ===== src/Engine/Push/Once.antt =====
-- How often the transactions of keeper/round/engine.ts push one leaf.
use stonkfolio.Prelude.{
  ℕ, zero, suc, ◌+◌, ◌^◌, ◌≤◌, ◌≡◌, ◌==◌, List, [], ◌∷◌, none, err, ok, arith, Bool-cases,
  Option-cases, inl, inr, if◌then◌else◌, refl,
}
use stonkfolio.Engine.{Answer, RoundParams}
use stonkfolio.Engine.Push.{
  PushPlan, Block, Sender, Pushing, Outcome, record_failure, paid, in_block, pause_all, block_of,
  answer_single, push_single, joined, push_singles, refused_block, answer_block, send_block,
  join_halves, is_none_planned, push_block,
}

-- How often a plan names a leaf.
unfoldable pub times : (leaf_idx : ℕ) → List PushPlan → ℕ
times leaf_idx [] = 0
times leaf_idx (p ∷ rest) = (if p.leaf.leaf_idx == leaf_idx then 1 else 0) + times leaf_idx rest

-- How often the blocks that were sent name a leaf.
unfoldable pub times_sent : (leaf_idx : ℕ) → List Block → ℕ
unfolding times
times_sent leaf_idx [] = 0
times_sent leaf_idx (b ∷ rest) = times leaf_idx b.planned + times_sent leaf_idx rest

times-in_block :
    (i first_leaf level : ℕ) (plan : List PushPlan)
    → times i (in_block first_leaf level plan) ≤ times i plan
unfolding times
times-in_block i first_leaf level [] = omega arith
times-in_block i first_leaf level (p ∷ rest) =
    ground (arith, times-in_block i first_leaf level rest)

-- A leaf of a plan is in one half at most.
times-halves :
    (i first_leaf half : ℕ) (plan : List PushPlan)
    → times i (in_block first_leaf half plan) + times i (in_block (first_leaf + 2 ^ half) half plan)
      ≤ times i plan
unfolding times
times-halves i first_leaf half [] = omega arith
times-halves i first_leaf half (p ∷ rest) = ground (arith, times-halves i first_leaf half rest)

module _ (sender : Sender) (params : RoundParams) (asset_idx now i : ℕ) where
  pause_all-sent :
      (text : _) (plan : List PushPlan) (st : Pushing)
      → (pause_all sender params asset_idx now text plan st).sent ≡ st.sent
  unfolding pause_all record_failure
  pause_all-sent text [] st = refl
  pause_all-sent text (p ∷ rest) st = pause_all-sent text rest _

  answer_single-times :
      (answer : Answer Unit) (p : PushPlan) (st : Pushing)
      → times_sent i (answer_single sender params asset_idx now answer p st).1.sent
        ≤ times i (p ∷ []) + times_sent i st.sent
  unfolding answer_single paid record_failure times_sent times pause_all
  answer_single-times (ok done) p st = omega arith
  answer_single-times (err text) p st = elim (Bool-cases (sender.is_transient text)) [
    | inl e ↦ rw e (omega arith)
    | inr e ↦ rw e (omega arith)
  ]

  push_singles-times :
      (plan : List PushPlan) (o : Outcome) (st : Pushing)
      → times_sent i (push_singles sender params asset_idx now plan (o, st)).1.sent
        ≤ times i plan + times_sent i st.sent
  unfolding push_singles push_single times
  push_singles-times [] o st = omega arith
  push_singles-times (p ∷ rest) o st =
      let answer = sender.send (block_of sender params asset_idx now p.leaf.leaf_idx 0 (p ∷ [])) in
      let single = answer_single sender params asset_idx now answer p st in
      let one = answer_single-times answer p st in
      elim (Option-cases single.0.paused) [
        | inl e ↦
            let later =
              push_singles-times rest (joined sender params asset_idx now o single.0) single.1 in
            rw (e, push_singles) (omega (arith, one, later))
        | inr (text, e) ↦ rw (e, push_singles) (omega (arith, one))
      ]

  refused_block-times :
      (text : _) (plan : List PushPlan) (st : Pushing)
      → times_sent i (refused_block sender params asset_idx now text plan st).1.sent
        ≤ times i plan + times_sent i st.sent
  unfolding refused_block record_failure
  refused_block-times text [] st = omega arith
  refused_block-times text (p ∷ []) st = omega arith
  refused_block-times text (p ∷ q ∷ rest) st =
      push_singles-times (p ∷ q ∷ rest) (record { pushed = 0; transactions = 1; paused = none }) st

  answer_block-times :
      (answer : Answer Unit) (block : Block) (st : Pushing)
      → times_sent i (answer_block sender params asset_idx now answer block st).1.sent
        ≤ times i block.planned + times_sent i st.sent
  unfolding answer_block paid times_sent
  answer_block-times (ok done) block st = omega arith
  answer_block-times (err text) block st = elim (Bool-cases (sender.is_transient text)) [
    | inl e ↦ rw e (ground (arith, pause_all-sent text block.planned st))
    | inr e ↦ rw e (refused_block-times text block.planned st)
  ]

  join_halves-times :
      (a b : ℕ) (left : Outcome × Pushing) (right : Pushing → Outcome × Pushing) (st : Pushing)
      → times_sent i left.1.sent ≤ a + times_sent i st.sent
      → ((mid : Pushing) → times_sent i (right mid).1.sent ≤ b + times_sent i mid.sent)
      → times_sent i (join_halves sender params asset_idx now left right).1.sent
        ≤ a + b + times_sent i st.sent
  unfolding join_halves
  join_halves-times a b (left, mid) right st h k = elim (Option-cases left.paused) [
    | inl e ↦ rw e (omega (arith, h, k mid))
    | inr (text, e) ↦ rw e (omega (arith, h))
  ]

  -- However a block is halved, refused and retried, the transactions that are accepted push a leaf no
  -- more often than the plan names it within the block, so a leaf
  -- that is planned once is in one accepted transaction at most.
  pub push_block-times :
      (level first_leaf : ℕ) (plan : List PushPlan) (st : Pushing)
      → times_sent i (push_block sender params asset_idx now level first_leaf plan st).1.sent
        ≤ times i (in_block first_leaf level plan) + times_sent i st.sent
  unfolding push_block send_block
  push_block-times zero first_leaf plan st =
      let planned = in_block first_leaf zero plan in
      let block = block_of sender params asset_idx now first_leaf zero planned in
      elim (Bool-cases (is_none_planned sender params asset_idx now planned)) [
        | inl e ↦ rw e (omega arith)
        | inr e ↦ rw e (answer_block-times (sender.send block) block st)
      ]
  push_block-times (suc half) first_leaf plan st =
      let planned = in_block first_leaf (suc half) plan in
      let block = block_of sender params asset_idx now first_leaf (suc half) planned in
      let right = first_leaf + 2 ^ half in
      elim (Bool-cases (is_none_planned sender params asset_idx now planned)) [
        | inl e ↦ rw e (omega arith)
        | inr e ↦ rw e (elim (Bool-cases (sender.fits block)) [
          | inl f ↦ rw f (answer_block-times (sender.send block) block st)
          | inr f ↦ rw f (
              let halves =
                join_halves-times (times i (in_block first_leaf half planned))
                  (times i (in_block right half planned))
                  (push_block sender params asset_idx now half first_leaf planned st)
                  (push_block sender params asset_idx now half right planned) st
                  (push_block-times half first_leaf planned st)
                  (λ mid. push_block-times half right planned mid) in
              omega (arith, halves, times-halves i first_leaf half planned))
        ])
      ]
