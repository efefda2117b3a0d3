-- ===== src/Liquidity/Decision.antt =====
-- What a decision on the liquidity share keeps to.
use stonkfolio.Prelude.{ℕ, ◌+◌, ◌<◌, ◌≤◌, ◌≡◌, refl, max, min, ◌-◌, ◌⊎◌, false, true, ok, arith}
use stonkfolio.Prelude.Int.{pos}
use stonkfolio.Liquidity.{
  LiquidityDecisionInput, LiquidityDecision, is_graduated, decide_bucket, decide_liquidity,
}

pub record IsSound (input : LiquidityDecisionInput) (bucket : ℕ) (d : LiquidityDecision)
    : Type 0 where
  -- Every lamport of the bucket goes one way.
  pub conserved : d.add_lamports + d.to_basket_lamports + d.carry_lamports ≡ bucket
  -- The pool is never filled beyond its target.
  pub within :
      input.pool_quote_depth_lamports + d.add_lamports
      ≤ max input.target_depth_lamports input.pool_quote_depth_lamports
  -- An add is worth its transactions and goes to a graduated pool only.
  pub worth : 0 < d.add_lamports → input.min_add_lamports ≤ d.add_lamports
  pub graduated_only : 0 < d.add_lamports → is_graduated input.phase ≡ true
  -- The basket gets a share only once the pool is at most a least add short of its target.
  pub basket_after :
      0 < d.to_basket_lamports
      → input.target_depth_lamports
        ≤ input.pool_quote_depth_lamports + d.add_lamports + input.min_add_lamports
  -- Something is carried before graduation, or while a thin pool waits for a least add.
  pub carried :
      0 < d.carry_lamports
      → (is_graduated input.phase ≡ false)
        ⊎ ((bucket < input.min_add_lamports)
            × (input.pool_quote_depth_lamports + input.min_add_lamports
                ≤ input.target_depth_lamports))
  -- A graduated pool that is a least add short gets what it lacks, as far as the bucket goes.
  pub filled :
      is_graduated input.phase ≡ true
      → input.min_add_lamports ≤ bucket
      → input.pool_quote_depth_lamports + input.min_add_lamports ≤ input.target_depth_lamports
      → d.add_lamports ≡ min bucket (input.target_depth_lamports - input.pool_quote_depth_lamports)

-- For a bucket that is not negative the decision is returned: every lamport of the bucket is added, given
-- to the basket or carried; it fills the pool to its target at most, adds no less than the least add and
-- to a graduated pool only, and gives the basket something only when the pool is then within a least add
-- of its target; it carries something only before graduation or while a thin pool waits for a least add;
-- and a graduated pool that is a least add short gets all that it can of a bucket that holds a least add.
pub decide_liquidity-IsSound :
    (input : LiquidityDecisionInput) (bucket : ℕ)
    → input.bucket_lamports ≡ pos bucket
    → (d : LiquidityDecision) × (decide_liquidity input ≡ ok d) × IsSound input bucket d
unfolding decide_liquidity decide_bucket
decide_liquidity-IsSound input bucket h = (
  decide_bucket input bucket,
  rw h refl,
  record {
    conserved = ground arith;
    within = ground arith;
    worth = ground arith;
    graduated_only = ground arith;
    basket_after = ground arith;
    carried = ground arith;
    filled = ground arith;
  },
)
