-- ===== src/FeeSplit/Tests.antt =====
-- Runs of the split.
use stonkfolio.Prelude.{◌≡◌, refl, [], ◌∷◌, ok, arith}
use stonkfolio.Prelude.Sums.{sum}
use stonkfolio.FeeSplit.{split_by_bps, split_revenue, FeeSplitBps, RevenueSplit, total_bps}
use stonkfolio.FeeSplit.Conservation.{
  split_by_bps-closed, split_revenue-IsFairSplit, IsFairSplit, share_list,
}

split_uneven : split_by_bps 101 (3000 ∷ 7000 ∷ []) 10_000 ≡ ok (30 ∷ 71 ∷ [])
unfolding split_by_bps
split_uneven = refl

abbrev shares : FeeSplitBps
shares = record {
  basket_bps = 7000;
  flywheel_bps = 1000;
  platform_buyback_bps = 1000;
  platform_revenue_bps = 1000;
}

shares_whole : sum (share_list shares) ≡ total_bps
unfolding sum
shares_whole = refl

split_by_bps-closed_example : split_by_bps 101 (3000 ∷ 7000 ∷ []) 10_000 ≡ ok (30 ∷ 71 ∷ [])
unfolding sum
split_by_bps-closed_example = split_by_bps-closed 101 10_000 7000 (3000 ∷ []) (omega arith) refl

split_revenue-IsFairSplit_example :
    (r : RevenueSplit) × (split_revenue 101 shares ≡ ok r) × IsFairSplit 101 shares r
split_revenue-IsFairSplit_example = split_revenue-IsFairSplit 101 shares shares_whole
