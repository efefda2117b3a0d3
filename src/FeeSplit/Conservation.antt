-- ===== src/FeeSplit/Conservation.antt =====
-- What the split gives out: every lamport, once.
use mathlib.Core.List.{map-append}
use stonkfolio.Prelude.{
  ℕ, ◌+◌, ◌-◌, ◌*◌, ◌/◌, ◌≤◌, ◌<◌, ◌≡◌, refl, List, [], ◌∷◌, ◌++◌, arith, ==_iff, ok, ap,
}
use stonkfolio.Prelude.Sums.{sum, sum-append, floors, leftovers, floors_bounds, positives-le-length}
use stonkfolio.FeeSplit.{
  split_by_bps, floor_amounts, add_last, FeeSplitBps, RevenueSplit, split_revenue, total_bps,
}

floor_amounts_lem :
    (total d : ℕ)
    → 0 < d
    → (shares : List ℕ) → floor_amounts total d shares ≡ ok (floors total d shares)
unfolding floor_amounts
floor_amounts_lem total d h [] = refl
floor_amounts_lem total d h (s ∷ shares) = ground (arith, floor_amounts_lem total d h shares)

add_last_lem :
    (extra : ℕ) (xs : List ℕ) (y : ℕ) → add_last extra (xs ++ y ∷ []) ≡ ok (xs ++ (y + extra) ∷ [])
unfolding add_last
add_last_lem extra [] y = refl
add_last_lem extra (x ∷ []) y = refl
add_last_lem extra (x ∷ x' ∷ xs) y = rw (add_last_lem extra (x' ∷ xs) y)

-- Every bucket but the last is the floor of its share, and the last takes all that is left, where the
-- shares make up a denominator above 0.
pub split_by_bps-closed :
    (total d last : ℕ) (shares : List ℕ)
    → 0 < d
    → sum shares + last ≡ d
    → split_by_bps total (shares ++ last ∷ []) d
      ≡ ok (floors total d shares ++ (total - sum (floors total d shares)) ∷ [])
unfolding split_by_bps sum
split_by_bps-closed total d last shares h e =
    let whole : sum (shares ++ last ∷ []) ≡ d = omega (arith, sum-append shares (last ∷ []), e) in
    let parts : floors total d (shares ++ last ∷ [])
        ≡ floors total d shares ++ (total * last / d) ∷ [] =
      map-append _ shares (last ∷ []) in
    let fits = floors_bounds total d (shares ++ last ∷ []) h whole in
    let split = sum-append (floors total d shares) ((total * last / d) ∷ []) in
    rw
      ((==_iff _ d).1 whole, floor_amounts_lem total d h (shares ++ last ∷ []), parts, add_last_lem)
      (ap (λ n. ok (floors total d shares ++ n ∷ [])) (omega (arith, fits.0, ap sum parts, split)))

-- The four shares, in the order in which `splitRevenue` passes them.
abbrev pub share_list : FeeSplitBps → List ℕ
share_list shares =
    shares.flywheel_bps ∷ shares.platform_buyback_bps ∷ shares.platform_revenue_bps
    ∷ shares.basket_bps ∷ []

abbrev floor_share : ℕ → ℕ → ℕ
floor_share lamports bps = lamports * bps / total_bps

-- What a coin's revenue split promises.
pub record IsFairSplit (lamports : ℕ) (shares : FeeSplitBps) (r : RevenueSplit) : Type 0 where
  pub conserved :
      r.basket_lamports + r.flywheel_lamports + r.platform_buyback_lamports
        + r.platform_revenue_lamports
      ≡ lamports
  pub flywheel : r.flywheel_lamports ≡ floor_share lamports shares.flywheel_bps
  pub buyback : r.platform_buyback_lamports ≡ floor_share lamports shares.platform_buyback_bps
  pub revenue : r.platform_revenue_lamports ≡ floor_share lamports shares.platform_revenue_bps
  pub basket_least : floor_share lamports shares.basket_bps ≤ r.basket_lamports
  pub basket_most : r.basket_lamports ≤ floor_share lamports shares.basket_bps + 3

split_of : ℕ → FeeSplitBps → RevenueSplit
split_of lamports shares = record {
  basket_lamports =
      lamports
      - sum (
          floors lamports total_bps
            (shares.flywheel_bps ∷ shares.platform_buyback_bps ∷ shares.platform_revenue_bps ∷ []));
  flywheel_lamports = floor_share lamports shares.flywheel_bps;
  platform_buyback_lamports = floor_share lamports shares.platform_buyback_bps;
  platform_revenue_lamports = floor_share lamports shares.platform_revenue_bps;
}

split_revenue_lem :
    (lamports : ℕ) (shares : FeeSplitBps)
    → sum (share_list shares) ≡ total_bps
    → split_revenue lamports shares ≡ ok (split_of lamports shares)
unfolding split_revenue split_of sum
split_revenue_lem lamports shares h = rw (
    split_by_bps-closed lamports total_bps shares.basket_bps
      (shares.flywheel_bps ∷ shares.platform_buyback_bps ∷ shares.platform_revenue_bps ∷ [])
      (omega arith) (omega (arith, h)))

-- Where a coin's four shares make up 10,000 basis points, `splitRevenue` returns a split that gives
-- out every lamport once: three buckets get the floor of their share, and the basket gets its floor
-- and at most three lamports more.
pub split_revenue-IsFairSplit :
    (lamports : ℕ) (shares : FeeSplitBps)
    → sum (share_list shares) ≡ total_bps
    → (r : RevenueSplit) × (split_revenue lamports shares ≡ ok r) × IsFairSplit lamports shares r
unfolding split_of sum
split_revenue-IsFairSplit lamports shares h =
    let (fits, near) = floors_bounds lamports total_bps (share_list shares) (omega arith) h in
    let few = positives-le-length (leftovers lamports total_bps (share_list shares)) in
    (split_of lamports shares, split_revenue_lem lamports shares h, omega (arith, fits, near, few))
