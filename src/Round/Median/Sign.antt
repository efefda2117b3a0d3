-- ===== src/Round/Median/Sign.antt =====
-- The median of prices is one that the code has tested: positive below, not negative above.
use stonkfolio.Prelude.{
  ℕ, zero, suc, ◌<◌, ◌≡◌, false, List, [], ◌∷◌, All, any, get_elem?, Option, none, some, ok,
  refuse-eq-ok, arith,
}
use stonkfolio.Prelude.Int.{pos, pos_part}
use stonkfolio.Prelude.Sort.{sort_by-All}
use stonkfolio.Round.Types.{Rational}
use stonkfolio.Round.Median.{is_bad_price, le_rational, value_at, median_rational}

pub record IsPrice (r : Rational) : Type 0 where
  pub num : r.num ≡ pos (pos_part r.num)
  pub den : r.den ≡ pos (pos_part r.den)
  pub den_positive : 0 < pos_part r.den

IsPrice-of : (r : Rational) → is_bad_price r ≡ false → IsPrice r
unfolding is_bad_price
IsPrice-of r h = record { num = ground arith; den = ground arith; den_positive = ground arith }

pub any-IsPrice : (vs : List Rational) → any is_bad_price vs ≡ false → All IsPrice vs
any-IsPrice [] h = tt
any-IsPrice (v ∷ vs) h = (IsPrice-of v (ground arith), any-IsPrice vs (ground arith))

get_elem?-All :
    (xs : List Rational) (i : ℕ) {r : Rational}
    → All IsPrice xs
    → get_elem? xs i ≡ some r
    → IsPrice r
get_elem?-All [] i h e = cc
get_elem?-All (x ∷ xs) zero {r} h e = let same : x ≡ r = ground arith in rw same at h.0
get_elem?-All (x ∷ xs) (suc i) h e = get_elem?-All xs i h.1 e

pub value_at-eq-ok :
    (found : Option Rational) {r : Rational} → value_at found ≡ ok r → found ≡ some r
value_at-eq-ok none h = cc
value_at-eq-ok (some v) h = cc

pub median_rational-IsPrice :
    (values : List Rational) {r : Rational} → median_rational values ≡ ok r → IsPrice r
unfolding median_rational
median_rational-IsPrice [] h = cc
median_rational-IsPrice (v ∷ values) h =
    let (fine, found) = refuse-eq-ok (any is_bad_price (v ∷ values)) _ _ h in
    get_elem?-All _ _ (sort_by-All le_rational IsPrice (v ∷ values) (any-IsPrice (v ∷ values) fine))
      (value_at-eq-ok _ found)
