-- ===== src/Round/Likely.antt =====
-- `countLikelyEligible` of keeper/round/operations.ts: how many owners already clear the threshold.
pub mod Cap
mod Tests
use Prim.Native.String.{String}
use stonkfolio.Prelude.{
  ℕ, suc, Bool, true, false, ◌&&◌, ◌||◌, not, List, [], ◌∷◌, Option, none, some, leb, if◌then◌else◌,
}
use stonkfolio.Prelude.Int.{ℤ, pos, ◌+ℤ◌, ◌*ℤ◌, ltb_ℤ, leb_ℤ}
use stonkfolio.Prelude.Maps.{has, lookup, insert}
use stonkfolio.Round.Types.{Rational, TokenAccountRow, Keys}
use stonkfolio.Round.Holders.{lamports_per_sol}

pub record Opts : Type 0 where
  pub min_eligible_usd_micro : ℤ
  pub excluded : List String
  pub exclude_off_curve : Bool
  pub cap : ℕ

-- `byOwner.get(owner) ?? 0n`
abbrev pub amount_of : Option ℤ → ℤ
amount_of none = pos 0
amount_of (some amount) = amount

-- The balances by owner, without the excluded ones.
unfoldable pub by_owner : List String → List TokenAccountRow → List (String × ℤ) → List (String × ℤ)
by_owner excluded [] m = m
by_owner excluded (row ∷ rows) m = by_owner excluded rows (
    if has row.owner excluded
    then m
    else insert row.owner (amount_of (lookup row.owner m) +ℤ row.amount) m)

-- The owner is not passed over. A text that is no key, which makes `PublicKey` throw, is passed over
-- like a wallet off the curve.
unfoldable pub clears : Keys → Rational → (sol_usd_micro : ℤ) → Opts → String × ℤ → Bool
clears keys pool_price sol_usd_micro opts (owner, amount) =
    let threshold = opts.min_eligible_usd_micro *ℤ pool_price.den *ℤ pos lamports_per_sol in
    let too_little = ltb_ℤ (amount *ℤ pool_price.num *ℤ sol_usd_micro) threshold in
    let nothing = leb_ℤ amount (pos 0) && leb_ℤ (pos 0) amount in
    not (nothing || too_little)
    && (not opts.exclude_off_curve || (keys.is_key owner && keys.is_on_curve owner))

-- The loop, with its early return at the cap.
unfoldable pub count_from : (String × ℤ → Bool) → (cap count : ℕ) → List (String × ℤ) → ℕ
count_from passes cap count [] = count
count_from passes cap count (entry ∷ rest) =
    let passed_over = count_from passes cap count rest in
    let counted = count_from passes cap (suc count) rest in
    if passes entry then (if leb cap (suc count) then cap else counted) else passed_over

unfoldable pub count_likely_eligible :
    Keys → List TokenAccountRow → Rational → (sol_usd_micro : ℤ) → Opts → ℕ
unfolding by_owner clears count_from
count_likely_eligible keys accounts pool_price sol_usd_micro opts =
    count_from (clears keys pool_price sol_usd_micro opts) opts.cap 0
      (by_owner opts.excluded accounts [])
