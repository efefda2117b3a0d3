-- ===== src/Engine/Queue/Safe.antt =====
-- Well-formed states of keeper/round/engine.ts under a step of pushes.
use Prim.Native.String.{String}
use text.Mathlib.Text.{◌==◌ as str_eq}
use stonkfolio.Prelude.{
  ℕ, ◌≡◌, ◌==◌, List, [], ◌∷◌, length, true, ltb, Bool-cases, inl, inr, if◌then◌else◌,
}
use stonkfolio.Round.Policy.{RoundPolicy, number_part}
use stonkfolio.Ledger.{should_auto_push}
use stonkfolio.Store.{KeeperState, ActiveRound}
use stonkfolio.Engine.{ask, Client, RoundParams}
use stonkfolio.Engine.Finish.{or_empty}
use stonkfolio.Engine.Finish.Safe.{finish_paying-IsWellFormed}
use stonkfolio.Engine.Safe.{
  IsWellFormed, may_pay, Returns, Returns-ok, Returns-if, Returns-choice, Returns-option,
  Returns-any, Returns-ask, Returns-bind,
}
use stonkfolio.Engine.Commit.{PreparedAsset, PreparedRound}
use stonkfolio.Engine.Activate.{find_asset}
use stonkfolio.Engine.Activate.Safe.{IsSound}
use stonkfolio.Engine.Push.{Sender, Pushing, push_block, record_failure, paid}
use stonkfolio.Engine.Push.Safe.{push_block-keeps}
use stonkfolio.Engine.Queue.{
  Candidate, QueuedBlock, Queue, Accounts, queue_assets, is_active, token_account_rent, rent_of,
  too_small, plan_block, push_blocks, push_queue, push, price_of, push_block_level,
}

-- The round is one that may be paid.
abbrev MayPay : Pushing → Type 0
MayPay st = may_pay st.round.status ≡ true

queue_assets-Returns :
    (params : RoundParams) (now : ℕ) (client : Client) (prepared : PreparedRound)
    (round : ActiveRound) (assets : List PreparedAsset) (q : Queue)
    → Returns (λ queue. Unit) (queue_assets params now client prepared round assets q)
unfolding queue_assets
queue_assets-Returns params now client prepared round [] q = Returns-ok _ tt
queue_assets-Returns params now client prepared round (asset ∷ rest) q =
    Returns-choice (is_active (find_asset asset.mint (or_empty round.assets)))
      (Returns-bind (ask (client.fetch_round_asset round.round_id asset.asset_idx)) (Returns-ask _)
        (λ account e. queue_assets-Returns params now client prepared round rest _))
      (queue_assets-Returns params now client prepared round rest q)

module _ (accounts : Accounts) (policy : RoundPolicy) (prepared : PreparedRound) where
  rent_of-Returns :
      (asset : PreparedAsset) (recipient : String)
      → Returns (λ rent. Unit) (rent_of accounts policy prepared asset recipient)
  unfolding rent_of token_account_rent
  rent_of-Returns asset recipient =
      Returns-choice (accounts.exists asset.mint recipient) (Returns-ok _ tt) (
        Returns-choice (str_eq asset.token_program accounts.token_2022_program)
          (Returns-bind (ask (accounts.account_len asset.mint)) (Returns-ask _)
            (λ space e. Returns-any (accounts.rent space)))
          (Returns-any (accounts.rent 165)))

  plan_block-Returns :
      (asset : PreparedAsset) (candidates : List Candidate) (st : Pushing)
      → MayPay st
      → Returns
          (λ planned. MayPay planned.1)
          (plan_block accounts policy prepared asset candidates st)
  unfolding plan_block record_failure
  plan_block-Returns asset [] st h = Returns-ok _ h
  plan_block-Returns asset (c ∷ rest) st h =
      Returns-bind (rent_of accounts policy prepared asset c.leaf.recipient)
        (rent_of-Returns asset c.leaf.recipient)
        (λ rent u.
          let worth =
            should_auto_push (accounts.exists asset.mint c.leaf.recipient) c.leaf.amount
              (price_of asset.mint prepared.purchases) rent
              (number_part policy.auto_push_min_rent_multiple) in
          let noted : Pushing =
            if worth then st else record_failure (too_small accounts policy prepared asset c) st in
          Returns-bind (plan_block accounts policy prepared asset rest noted)
            (plan_block-Returns asset rest noted
              (elim (Bool-cases worth) [ inl e ↦ rw e h | inr e ↦ rw e h ]))
            (λ planned k. Returns-ok _ k))

  module _ (sender : Sender) (params : RoundParams) (now : ℕ) where
    push_blocks-Returns :
        (blocks : List QueuedBlock) (st : Pushing)
        → MayPay st
        → Returns
            (λ done. MayPay done.1)
            (push_blocks accounts policy prepared sender params now blocks st)
    unfolding push_blocks record_failure paid
    push_blocks-Returns [] st h = Returns-ok _ h
    push_blocks-Returns (b ∷ rest) st h =
        Returns-bind (plan_block accounts policy prepared b.asset b.candidates st)
          (plan_block-Returns b.asset b.candidates st h)
          (λ planned k.
            let pushed =
              push_block sender params b.asset.asset_idx now push_block_level b.first_leaf planned.0
                planned.1 in
            let kept =
              push_block-keeps MayPay (λ f st h. h) (λ b st h. h) sender params b.asset.asset_idx
                now push_block_level b.first_leaf planned.0 planned.1 k in
            Returns-option pushed.0.paused (push_blocks-Returns rest pushed.1 kept)
              (λ text. Returns-ok _ kept))

    push_queue-Returns :
        (q : Queue) (round : ActiveRound) (s : KeeperState)
        → IsWellFormed s
        → may_pay round.status ≡ true
        → Returns
            (λ done. IsSound done.0)
            (push_queue accounts policy prepared sender params now q round s)
    unfolding push_queue
    push_queue-Returns q round s w h =
        Returns-choice (length q.blocks == 0)
          (Returns-if (ltb 0 q.deferred) (Returns-ok _ (w, h))
            (Returns-ok _ (finish_paying-IsWellFormed round s w, h)))
          (Returns-bind
            (push_blocks accounts policy prepared sender params now q.blocks
              (record { round = round; sent = [] }))
            (push_blocks-Returns q.blocks (record { round = round; sent = [] }) h)
            (λ done k. Returns-ok _ (w, k)))

    -- A step of pushes keeps the state well-formed.
    pub push-Returns :
        (client : Client) (round : ActiveRound) (s : KeeperState)
        → IsWellFormed s
        → may_pay round.status ≡ true
        → Returns
            (λ done. IsSound done.0)
            (push accounts policy prepared sender params now client round s)
    unfolding push
    push-Returns client round s w h =
        let start : Queue = record { blocks = []; queued = 0; deferred = 0 } in
        Returns-bind (queue_assets params now client prepared round prepared.assets start)
          (queue_assets-Returns params now client prepared round prepared.assets start)
          (λ q u. push_queue-Returns q round s w h)
