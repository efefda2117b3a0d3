-- ===== src/Liquidity/Tests.antt =====
-- A graduated pool that is 40 short of its target.
use stonkfolio.Prelude.{◌≡◌, refl, ok}
use stonkfolio.Prelude.Int.{pos}
use stonkfolio.Liquidity.{LiquidityDecisionInput, LiquidityDecision, graduated, decide_liquidity}
use stonkfolio.Liquidity.Decision.{IsSound, decide_liquidity-IsSound}

abbrev short : LiquidityDecisionInput
short = record {
  phase = graduated;
  bucket_lamports = pos 100;
  pool_quote_depth_lamports = 60;
  target_depth_lamports = 100;
  min_add_lamports = 10;
}

decide_liquidity-IsSound_example :
    (d : LiquidityDecision) × (decide_liquidity short ≡ ok d) × IsSound short 100 d
decide_liquidity-IsSound_example = decide_liquidity-IsSound short 100 refl
