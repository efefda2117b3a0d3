-- ===== src/Round/Median/Rank.antt =====
-- What the lower median of keeper/round/allocate.ts is among the prices.
use native.Mathlib.Nat.{mul-le-mul_right, mul_right_comm, le_of_mul-le-mul_right}
use stonkfolio.Prelude.{
  ℕ, zero, suc, ◌-◌, ◌*◌, ◌/◌, ◌≤◌, ◌<◌, ◌≡◌, Bool, true, false, not, List, [], ◌∷◌, All, any,
  length, get_elem?, leb, some, ok, refuse-eq-ok, arith, refl, ap₂, ◌∙◌, subst, if◌then◌else◌,
}
use stonkfolio.Prelude.Int.{pos, pos_part, leb_ℤ, ◌*ℤ◌}
use stonkfolio.Prelude.Sort.{insert_by, sort_by, sort_by-All, sort_by-IsSortedBy, IsSortedBy}
use stonkfolio.Round.Types.{Rational}
use stonkfolio.Round.Median.{is_bad_price, le_rational, median_rational}
use stonkfolio.Round.Median.Sign.{IsPrice, any-IsPrice, value_at-eq-ok}

-- How many entries pass a test.
unfoldable pub count {ℓ} : {A : Type ℓ} → (A → Bool) → List A → ℕ
count p [] = 0
count p (x ∷ xs) = if p x then suc (count p xs) else count p xs

-- A price is at most another where its cross product is.
abbrev pub at_most : Rational → Rational → Bool
at_most a b = leb (pos_part a.num * pos_part b.den) (pos_part b.num * pos_part a.den)

-- Fewer than half of the prices are below it, and half at least are not above it: of two in the middle it
-- is the lower one.
pub record IsLowerMedian (m : Rational) (values : List Rational) : Type 0 where
  pub below : 2 * count (λ v. not (at_most m v)) values < length values
  pub reached : length values ≤ 2 * count (λ v. at_most v m) values

leb-le : (m n : ℕ) → leb m n ≡ true → m ≤ n
leb-le m n h = ground (arith, h)

le-leb : (m n : ℕ) → m ≤ n → leb m n ≡ true
le-leb m n h = ground (arith, h)

cross : (an ad bn bd : ℕ) → leb_ℤ (pos an *ℤ pos bd) (pos bn *ℤ pos ad) ≡ leb (an * bd) (bn * ad)
unfolding ◌*ℤ◌
cross an ad bn bd = ground arith

le_rational-at_most : (a b : Rational) → IsPrice a → IsPrice b → le_rational a b ≡ at_most a b
unfolding le_rational ◌*ℤ◌
le_rational-at_most a b p q =
    ap₂ leb_ℤ (ap₂ ◌*ℤ◌ p.num q.den) (ap₂ ◌*ℤ◌ q.num p.den)
    ∙ cross (pos_part a.num) (pos_part a.den) (pos_part b.num) (pos_part b.den)

le_rational-total : (a b : Rational) → le_rational a b ≡ false → le_rational b a ≡ true
unfolding le_rational
le_rational-total a b h = ground (arith, h)

at_most_trans : (a b c d e f : ℕ) → 0 < d → a * d ≤ c * b → c * f ≤ e * d → a * f ≤ e * b
at_most_trans a b c d e f above h k =
    let first = mul-le-mul_right f h in
    let second = mul-le-mul_right b k in
    le_of_mul-le-mul_right {k = d}
      (omega
        (arith, first, second, mul_right_comm a f d, mul_right_comm c b f, mul_right_comm e d b))
      above

le_rational_trans :
    (a b c : Rational)
    → IsPrice a
    → IsPrice b
    → IsPrice c
    → le_rational a b ≡ true
    → le_rational b c ≡ true
    → le_rational a c ≡ true
le_rational_trans a b c p q r h k =
    let first = rw (le_rational-at_most a b p q) at h in
    let second = rw (le_rational-at_most b c q r) at k in
    let both =
      at_most_trans (pos_part a.num) (pos_part a.den) (pos_part b.num) (pos_part b.den)
        (pos_part c.num) (pos_part c.den) q.den_positive (leb-le _ _ first) (leb-le _ _ second) in
    rw (le_rational-at_most a c p r) (le-leb _ _ both)

count-insert_by {ℓ} :
    {A : Type ℓ} (before : A → A → Bool) (p : A → Bool) (x : A) (xs : List A)
    → count p (insert_by before x xs) ≡ count p (x ∷ xs)
unfolding count insert_by
count-insert_by before p x [] = refl
count-insert_by before p x (y ∷ ys) = ground (arith, count-insert_by before p x ys)

count-sort_by {ℓ} :
    {A : Type ℓ} (before : A → A → Bool) (p : A → Bool) (xs : List A)
    → count p (sort_by before xs) ≡ count p xs
unfolding count sort_by
count-sort_by before p [] = refl
count-sort_by before p (x ∷ xs) =
    ground (arith, count-insert_by before p x (sort_by before xs), count-sort_by before p xs)

count-none :
    (m : Rational) (l : List Rational)
    → IsPrice m
    → All IsPrice l
    → All (λ v. le_rational m v ≡ true) l
    → count (λ v. not (at_most m v)) l ≡ 0
unfolding count
count-none m [] p ps h = refl
count-none m (v ∷ l) p ps h =
    rw (rw (le_rational-at_most m v p ps.0) at h.0) (count-none m l p ps.1 h.1)

get_elem?-both :
    (Q : Rational → Type 0) (xs : List Rational) (i : ℕ) {r : Rational}
    → All Q xs
    → get_elem? xs i ≡ some r
    → Q r
get_elem?-both Q [] i h e = cc
get_elem?-both Q (x ∷ xs) zero {r} h e = let same : x ≡ r = ground arith in rw same at h.0
get_elem?-both Q (x ∷ xs) (suc i) h e = get_elem?-both Q xs i h.1 e

at_most_refl : (v : Rational) → at_most v v ≡ true
at_most_refl v = le-leb _ _ (omega arith)

-- The rank of the entry at a place of a sorted list.
sorted-rank :
    (l : List Rational) (i : ℕ) {m : Rational}
    → All IsPrice l
    → IsSortedBy le_rational l
    → get_elem? l i ≡ some m
    → (count (λ v. not (at_most m v)) l ≤ i) × (suc i ≤ count (λ v. at_most v m) l)
unfolding count
sorted-rank [] i ps s e = cc
sorted-rank (x ∷ xs) zero {m} ps s e =
    let same : x ≡ m = ground arith in
    subst
      (λ m. (count (λ v. not (at_most m v)) (x ∷ xs) ≤ 0) × (1 ≤ count (λ v. at_most v m) (x ∷ xs)))
      same (rw (at_most_refl x) (omega (arith, count-none x xs ps.0 ps.1 s.0), omega arith))
sorted-rank (x ∷ xs) (suc i) {m} ps s e =
    let later = sorted-rank xs i ps.1 s.1 e in
    let first = get_elem?-both (λ v. le_rational x v ≡ true) xs i s.0 e in
    let price = get_elem?-both IsPrice xs i ps.1 e in
    let up = rw (le_rational-at_most x m ps.0 price) at first in
    rw up (one_more _ (not (at_most m x)) later.0, omega (arith, later.1))
  where
    one_more : (n : ℕ) (b : Bool) → n ≤ i → (if b then suc n else n) ≤ suc i
    one_more n true h = omega (arith, h)
    one_more n false h = omega (arith, h)

pub median_rational-IsLowerMedian :
    (values : List Rational) {r : Rational} → median_rational values ≡ ok r → IsLowerMedian r values
unfolding median_rational
median_rational-IsLowerMedian [] h = cc
median_rational-IsLowerMedian (v ∷ values) {r} h =
    let (fine, found) = refuse-eq-ok (any is_bad_price (v ∷ values)) _ _ h in
    let prices = any-IsPrice (v ∷ values) fine in
    let rank =
      sorted-rank (sort_by le_rational (v ∷ values)) ((length (v ∷ values) - 1) / 2)
        (sort_by-All le_rational IsPrice (v ∷ values) prices)
        (sort_by-IsSortedBy le_rational IsPrice le_rational-total le_rational_trans (v ∷ values)
          prices)
        (value_at-eq-ok _ found) in
    record {
      below =
          omega (arith, rank.0, count-sort_by le_rational (λ u. not (at_most r u)) (v ∷ values));
      reached = omega (arith, rank.1, count-sort_by le_rational (λ u. at_most u r) (v ∷ values));
    }
