-- ===== src/Round/Likely/Tests.antt =====
-- Two owners that clear the bar, under a cap of one.
use stonkfolio.Prelude.{◌≡◌, min, true, List, [], ◌∷◌, length}
use stonkfolio.Prelude.Int.{pos}
use stonkfolio.Prelude.Maps.{has}
use stonkfolio.Prelude.Picked.{Distinct}
use stonkfolio.Round.Types.{Rational, TokenAccountRow, Keys}
use stonkfolio.Round.Likely.{Opts, count_likely_eligible}
use stonkfolio.Prelude.{◌↔◌, refl, arith}
use Prim.Native.String.{String}
use stonkfolio.Round.Likely.Cap.{IsLikely, count_likely_eligible-min}

abbrev keys : Keys
keys = record { is_key = λ o. true; buffer = λ o. []; is_on_curve = λ o. true }

abbrev price : Rational
price = record { num = pos 2; den = pos 1 }

abbrev accounts : List TokenAccountRow
accounts =
    record { address = "a1"; owner = "ada"; amount = pos 700 }
    ∷ record { address = "b1"; owner = "bob"; amount = pos 200 }
    ∷ record { address = "t1"; owner = "team"; amount = pos 900 }
    ∷ []

abbrev opts : Opts
opts = record {
  min_eligible_usd_micro = pos 1;
  excluded = "team" ∷ [];
  exclude_off_curve = true;
  cap = 1;
}

count_likely_eligible-min_example :
    (owners : List String) × Distinct owners
    × ((o : String) → (has o owners ≡ true) ↔ IsLikely keys accounts price 150_000_000 1 opts o)
    × (count_likely_eligible keys accounts price (pos 150_000_000) opts ≡ min 1 (length owners))
count_likely_eligible-min_example =
    count_likely_eligible-min keys accounts price 150_000_000 1 opts
      (record { num = refl; den = refl; den_positive = omega arith }) refl
      (refl, (refl, (refl, tt)))
