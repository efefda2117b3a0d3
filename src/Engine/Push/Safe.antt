-- ===== src/Engine/Push/Safe.antt =====
-- What recording a failure and booking a sent block keep, through the pushes of
-- keeper/round/engine.ts.
use Prim.Native.String.{String}
use stonkfolio.Prelude.{
  ℕ, zero, suc, ◌+◌, ◌^◌, List, [], ◌∷◌, none, err, ok, Bool-cases, Option-cases, inl, inr,
}
use stonkfolio.Store.{PayoutFailure}
use stonkfolio.Engine.{Answer, RoundParams}
use stonkfolio.Engine.Push.{
  PushPlan, Block, Sender, Pushing, Outcome, record_failure, paid, in_block, pause_failure, refusal,
  pause_all, answer_single, answer_block, joined, block_of, push_single, push_singles,
  refused_block, send_block, join_halves, is_none_planned, push_block,
}

module _ (P : Pushing → Type 0) where
  module _ (fails : (f : PayoutFailure) (st : Pushing) → P st → P (record_failure f st))
      (pays : (b : Block) (st : Pushing) → P st → P (paid b st)) where
    module _ (sender : Sender) (params : RoundParams) (asset_idx now : ℕ) where
      pause_all-keeps :
          (text : String) (plan : List PushPlan) (st : Pushing)
          → P st
          → P (pause_all sender params asset_idx now text plan st)
      unfolding pause_all
      pause_all-keeps text [] st h = h
      pause_all-keeps text (p ∷ rest) st h =
          pause_all-keeps text rest _
            (fails (pause_failure sender params asset_idx now text p) st h)

      answer_single-keeps :
          (answer : Answer Unit) (p : PushPlan) (st : Pushing)
          → P st
          → P (answer_single sender params asset_idx now answer p st).1
      unfolding answer_single
      answer_single-keeps (ok done) p st h = pays _ st h
      answer_single-keeps (err text) p st h = elim (Bool-cases (sender.is_transient text)) [
        | inl e ↦ rw e (pause_all-keeps text (p ∷ []) st h)
        | inr e ↦ rw e (fails (refusal sender params asset_idx now text p) st h)
      ]

      push_single-keeps :
          (p : PushPlan) (st : Pushing) → P st → P (push_single sender params asset_idx now p st).1
      unfolding push_single
      push_single-keeps p st h = answer_single-keeps _ p st h

      push_singles-keeps :
          (plan : List PushPlan) (o : Outcome) (st : Pushing)
          → P st
          → P (push_singles sender params asset_idx now plan (o, st)).1
      unfolding push_singles
      push_singles-keeps [] o st h = h
      push_singles-keeps (p ∷ rest) o st h =
          let single = push_single sender params asset_idx now p st in
          let one = push_single-keeps p st h in
          elim (Option-cases single.0.paused) [
            | inl e ↦
                rw (e, push_singles)
                  (push_singles-keeps rest (joined sender params asset_idx now o single.0) single.1
                    one)
            | inr (text, e) ↦ rw (e, push_singles) one
          ]

      refused_block-keeps :
          (text : String) (plan : List PushPlan) (st : Pushing)
          → P st
          → P (refused_block sender params asset_idx now text plan st).1
      unfolding refused_block
      refused_block-keeps text [] st h = h
      refused_block-keeps text (p ∷ []) st h =
          fails (refusal sender params asset_idx now text p) st h
      refused_block-keeps text (p ∷ q ∷ rest) st h =
          push_singles-keeps (p ∷ q ∷ rest) (record { pushed = 0; transactions = 1; paused = none })
            st h

      answer_block-keeps :
          (answer : Answer Unit) (block : Block) (st : Pushing)
          → P st
          → P (answer_block sender params asset_idx now answer block st).1
      unfolding answer_block
      answer_block-keeps (ok done) block st h = pays block st h
      answer_block-keeps (err text) block st h = elim (Bool-cases (sender.is_transient text)) [
        | inl e ↦ rw e (pause_all-keeps text block.planned st h)
        | inr e ↦ rw e (refused_block-keeps text block.planned st h)
      ]

      join_halves-keeps :
          (left : Outcome × Pushing) (right : Pushing → Outcome × Pushing)
          → P left.1
          → ((st : Pushing) → P st → P (right st).1)
          → P (join_halves sender params asset_idx now left right).1
      unfolding join_halves
      join_halves-keeps (left, st) right h k = elim (Option-cases left.paused) [
        | inl e ↦ rw e (k st h)
        | inr (text, e) ↦ rw e h
      ]

      -- Pushing a block keeps it.
      pub push_block-keeps :
          (level first_leaf : ℕ) (plan : List PushPlan) (st : Pushing)
          → P st
          → P (push_block sender params asset_idx now level first_leaf plan st).1
      unfolding push_block send_block
      push_block-keeps zero first_leaf plan st h =
          let planned = in_block first_leaf zero plan in
          elim (Bool-cases (is_none_planned sender params asset_idx now planned)) [
            | inl e ↦ rw e h
            | inr e ↦ rw e (
                answer_block-keeps _ (block_of sender params asset_idx now first_leaf zero planned)
                  st h)
          ]
      push_block-keeps (suc half) first_leaf plan st h =
          let planned = in_block first_leaf (suc half) plan in
          let block = block_of sender params asset_idx now first_leaf (suc half) planned in
          elim (Bool-cases (is_none_planned sender params asset_idx now planned)) [
            | inl e ↦ rw e h
            | inr e ↦ rw e (elim (Bool-cases (sender.fits block)) [
              | inl f ↦ rw f (answer_block-keeps _ block st h)
              | inr f ↦ rw f (
                  join_halves-keeps
                    (push_block sender params asset_idx now half first_leaf planned st)
                    (push_block sender params asset_idx now half (first_leaf + 2 ^ half) planned)
                    (push_block-keeps half first_leaf planned st h)
                    (λ mid k. push_block-keeps half (first_leaf + 2 ^ half) planned mid k))
            ])
          ]
