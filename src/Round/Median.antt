-- ===== src/Round/Median.antt =====
-- `compareRational` and `medianRational` of keeper/round/allocate.ts.
pub mod Sign
pub mod Rank
use stonkfolio.Prelude.{
  ℕ, zero, suc, ◌-◌, ◌/◌, Bool, true, false, ◌||◌, List, [], ◌∷◌, length, get_elem?, Option, some,
  none, Result, ok, err, ◌>>=◌, ◌>>◌, refuse, any, not,
}
use stonkfolio.Prelude.Int.{ℤ, pos, ◌*ℤ◌, ltb_ℤ, leb_ℤ}
use stonkfolio.Prelude.Sort.{sort_by}
use stonkfolio.Round.Types.{Rational, Error, no_values, bad_price}

-- `compareRational(a, b) <= 0`
unfoldable pub le_rational : Rational → Rational → Bool
le_rational a b = leb_ℤ (a.num *ℤ b.den) (b.num *ℤ a.den)

unfoldable pub is_bad_price : Rational → Bool
is_bad_price v = leb_ℤ v.den (pos 0) || ltb_ℤ v.num (pos 0)

abbrev value_at : Option Rational → Result Error Rational
value_at (some v) = ok v
value_at none = err no_values

-- The lower median.
unfoldable pub median_rational : List Rational → Result Error Rational
unfolding is_bad_price le_rational sort_by
median_rational [] = err no_values
median_rational (v ∷ values) = do
  refuse (any is_bad_price (v ∷ values)) bad_price
  value_at (get_elem? (sort_by le_rational (v ∷ values)) ((length (v ∷ values) - 1) / 2))
