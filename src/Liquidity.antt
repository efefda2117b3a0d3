-- ===== src/Liquidity.antt =====
-- keeper/liquidity.ts: what becomes of a coin's liquidity share.
pub mod Decision
mod Tests
use stonkfolio.Prelude.{
  ℕ, ◌-◌, Bool, true, false, not, ◌||◌, Result, ok, err, ltb, ◌==◌, if◌then◌else◌, Option, none,
  some,
}
use stonkfolio.Prelude.Int.{ℤ, natural?}

pub data PoolPhase : Type 0 where
  curve awaiting_migration graduated : PoolPhase

pub record LiquidityDecisionInput : Type 0 where
  pub phase : PoolPhase
  pub bucket_lamports : ℤ
  pub pool_quote_depth_lamports : ℕ
  pub target_depth_lamports : ℕ
  pub min_add_lamports : ℕ

pub record LiquidityDecision : Type 0 where
  pub add_lamports : ℕ
  pub to_basket_lamports : ℕ
  pub carry_lamports : ℕ

pub data Error : Type 0 where
  negative_bucket : Error

abbrev pub is_graduated : PoolPhase → Bool
is_graduated graduated = true
is_graduated _ = false

-- How much the pool is short of its target.
abbrev pub room_of : LiquidityDecisionInput → ℕ
room_of input =
    if ltb input.pool_quote_depth_lamports input.target_depth_lamports
    then input.target_depth_lamports - input.pool_quote_depth_lamports
    else 0

-- The decision on a bucket that is not negative.
unfoldable pub decide_bucket : LiquidityDecisionInput → (bucket : ℕ) → LiquidityDecision
decide_bucket input bucket =
    let room = room_of input in
    let add = if ltb bucket room then bucket else room in
    if not (is_graduated input.phase) || bucket == 0
    then record { add_lamports = 0; to_basket_lamports = 0; carry_lamports = bucket }
    else if ltb room input.min_add_lamports
    then record { add_lamports = 0; to_basket_lamports = bucket; carry_lamports = 0 }
    else if ltb bucket input.min_add_lamports
    then record { add_lamports = 0; to_basket_lamports = 0; carry_lamports = bucket }
    else record { add_lamports = add; to_basket_lamports = bucket - add; carry_lamports = 0 }

unfoldable pub decide_liquidity : LiquidityDecisionInput → Result Error LiquidityDecision
unfolding decide_bucket
decide_liquidity input = elim (natural? input.bucket_lamports) [
  | none ↦ err negative_bucket
  | some bucket ↦ ok (decide_bucket input bucket)
]
