-- ===== src/Engine/Queue/Due.antt =====
-- Which payouts a step of keeper/round/engine.ts takes into its queue.
use stonkfolio.Prelude.{ℕ, ◌+◌, ◌≡◌, ◌≤◌, ◌<◌, List, map, false, All, length}
use stonkfolio.Prelude.Sums.{sum}
use stonkfolio.Engine.{RoundParams}
use stonkfolio.Engine.Queue.{Candidate, QueuedBlock, Queue, is_permanent, retry_at}

-- A payout that is not given up, and whose time to try again has come.
abbrev pub IsDue : (now : ℕ) → Candidate → Type 0
IsDue now c = (is_permanent c.failure ≡ false) × (retry_at c.failure ≤ now)

-- One to eight payouts that are due.
abbrev pub IsDueBlock : (now : ℕ) → QueuedBlock → Type 0
IsDueBlock now b =
    All (IsDue now) b.candidates × (0 < length b.candidates) × (length b.candidates ≤ 8)

module _ (params : RoundParams) (now : ℕ) where
  -- What the queue counts is what it holds, and at most one block more than a step's worth.
  abbrev pub IsQueue : Queue → Type 0
  unfolding sum
  IsQueue q =
      All (IsDueBlock now) q.blocks
      × (q.queued ≡ sum (map (λ b. length b.candidates) q.blocks))
      × (q.queued ≤ params.max_pushes_per_step + 7)
