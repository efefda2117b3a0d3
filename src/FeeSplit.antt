-- ===== src/FeeSplit.antt =====
-- keeper/feeSplit.ts: a coin's received fee revenue, split into buckets by basis points. Lamports
-- and shares are the non-negative whole numbers that the callers pass.
pub mod Conservation
pub mod Tests
use stonkfolio.Prelude.{
  ℕ, zero, suc, ◌+◌, ◌-◌, ◌*◌, ◌/◌, Bool, not, List, [], ◌∷◌, map, ◌==◌, if◌then◌else◌, Result, ok,
  err, ◌>>=◌, ◌>>◌, refuse,
}
use stonkfolio.Prelude.Sums.{sum}

pub data Error : Type 0 where
  shares_sum : (found expected : ℕ) → Error
  division_by_zero : Error
  -- `amounts[-1] += …` on an empty list adds a bigint to `undefined`
  no_bucket : Error

abbrev pub total_bps : ℕ
total_bps = 10_000

pub record FeeSplitBps : Type 0 where
  pub basket_bps : ℕ
  pub flywheel_bps : ℕ
  pub platform_buyback_bps : ℕ
  pub platform_revenue_bps : ℕ

pub record RevenueSplit : Type 0 where
  pub basket_lamports : ℕ
  pub flywheel_lamports : ℕ
  pub platform_buyback_lamports : ℕ
  pub platform_revenue_lamports : ℕ

-- `a / b` on bigints throws at a zero divisor
div_big : ℕ → ℕ → Result Error ℕ
div_big a b = if b == 0 then err division_by_zero else ok (a / b)

floor_amounts : (total denominator : ℕ) → List ℕ → Result Error (List ℕ)
unfolding div_big
floor_amounts total denominator [] = ok []
floor_amounts total denominator (bps ∷ rest) = do
  amount ← div_big (total * bps) denominator
  amounts ← floor_amounts total denominator rest
  ok (amount ∷ amounts)

-- `amounts[amounts.length - 1] += extra`
add_last : ℕ → List ℕ → Result Error (List ℕ)
add_last extra [] = err no_bucket
add_last extra (a ∷ []) = ok ((a + extra) ∷ [])
add_last extra (a ∷ b ∷ rest) = do amounts ← add_last extra (b ∷ rest); ok (a ∷ amounts)

unfoldable pub split_by_bps : (total : ℕ) → List ℕ → (denominator : ℕ) → Result Error (List ℕ)
unfolding floor_amounts add_last sum
split_by_bps total shares denominator = do
  refuse (not (sum shares == denominator)) (shares_sum (sum shares) denominator)
  amounts ← floor_amounts total denominator shares
  let allocated = sum amounts
  add_last (total - allocated) amounts

-- The destructuring of the four amounts; a list of another length leaves `undefined` fields, which
-- four shares never give.
revenue_split : List ℕ → Result Error RevenueSplit
revenue_split (flywheel ∷ buyback ∷ revenue ∷ basket ∷ []) = ok (record {
  basket_lamports = basket;
  flywheel_lamports = flywheel;
  platform_buyback_lamports = buyback;
  platform_revenue_lamports = revenue;
})
revenue_split _ = err no_bucket

unfoldable pub split_revenue : ℕ → FeeSplitBps → Result Error RevenueSplit
unfolding split_by_bps revenue_split
split_revenue lamports shares = do
  amounts ←
      split_by_bps lamports
        (shares.flywheel_bps ∷ shares.platform_buyback_bps ∷ shares.platform_revenue_bps
          ∷ shares.basket_bps ∷ [])
        total_bps
  revenue_split amounts
