-- ===== src/Round/Remainder/Order.antt =====
-- How often an index occurs in the order in which the left-over units are handed out.
use stonkfolio.Prelude.{
  ℕ, zero, suc, ◌+◌, ◌≤◌, ◌<◌, ◌≡◌, ◌≢◌, refl, ap, Bool, false, List, [], ◌∷◌, length, get_or, set,
  take, All, ◌==◌, if◌then◌else◌, arith, Bool-cases, inl, inr, map, ==_iff,
}
use stonkfolio.Prelude.Sort.{insert_by, sort_by, IsSortedBy}
use stonkfolio.Prelude.Sums.{sum}
use stonkfolio.Round.Remainder.{indices, hand_out}

unfoldable pub occurs : ℕ → List ℕ → ℕ
occurs i [] = 0
occurs i (j ∷ js) = if j == i then suc (occurs i js) else occurs i js

pub get_or-map {ℓ} :
    {A : Type ℓ} (f : A → ℕ) (xs : List A) (i : ℕ) (d : A)
    → i < length xs
    → get_or (map f xs) i 0 ≡ f (get_or xs i d)
get_or-map f [] i d h = absurd (omega arith)
get_or-map f (x ∷ xs) zero d h = refl
get_or-map f (x ∷ xs) (suc i) d h = get_or-map f xs i d (omega arith)

occurs-insert_by :
    (before : ℕ → ℕ → Bool) (i x : ℕ) (xs : List ℕ)
    → occurs i (insert_by before x xs) ≡ occurs i (x ∷ xs)
unfolding occurs insert_by
occurs-insert_by before i x [] = refl
occurs-insert_by before i x (y ∷ ys) = ground (arith, occurs-insert_by before i x ys)

pub occurs-sort_by :
    (before : ℕ → ℕ → Bool) (i : ℕ) (xs : List ℕ) → occurs i (sort_by before xs) ≡ occurs i xs
unfolding occurs sort_by
occurs-sort_by before i [] = refl
occurs-sort_by before i (x ∷ xs) =
    ground (arith, occurs-insert_by before i x (sort_by before xs), occurs-sort_by before i xs)

occurs-indices_lt : {A : Type 0} (i k : ℕ) (xs : List A) → i < k → occurs i (indices k xs) ≡ 0
unfolding occurs indices
occurs-indices_lt i k [] h = refl
occurs-indices_lt i k (x ∷ xs) h = ground (arith, occurs-indices_lt i (suc k) xs (omega arith))

-- Each index occurs once.
pub occurs-indices :
    {A : Type 0} (i k : ℕ) (xs : List A) → k ≤ i → i < k + length xs → occurs i (indices k xs) ≡ 1
unfolding occurs indices
occurs-indices i k [] h l = absurd (omega arith)
occurs-indices i k (x ∷ xs) h l = elim (Bool-cases (k == i)) [
  | inl e ↦ rw e (ap suc (occurs-indices_lt i (suc k) xs (ground arith)))
  | inr n ↦ rw n (occurs-indices i (suc k) xs (ground arith) (omega arith))
]

pub indices-lt :
    {A : Type 0} (k n : ℕ) (xs : List A) → k + length xs ≤ n → All (λ i. i < n) (indices k xs)
unfolding indices
indices-lt k n [] h = tt
indices-lt k n (x ∷ xs) h = (omega arith, indices-lt (suc k) n xs (omega arith))

pub length-indices {ℓ} : {A : Type ℓ} (k : ℕ) (xs : List A) → length (indices k xs) ≡ length xs
unfolding indices
length-indices k [] = refl
length-indices k (x ∷ xs) = ap suc (length-indices (suc k) xs)

get_or-set_self : (xs : List ℕ) (i v : ℕ) → i < length xs → get_or (set xs i v) i 0 ≡ v
get_or-set_self [] i v h = absurd (omega arith)
get_or-set_self (x ∷ xs) zero v h = refl
get_or-set_self (x ∷ xs) (suc i) v h = get_or-set_self xs i v (omega arith)

get_or-set_ne : (xs : List ℕ) (i j v : ℕ) → i ≢ j → get_or (set xs i v) j 0 ≡ get_or xs j 0
get_or-set_ne [] i j v h = refl
get_or-set_ne (x ∷ xs) zero zero v h = absurd (h refl)
get_or-set_ne (x ∷ xs) zero (suc j) v h = refl
get_or-set_ne (x ∷ xs) (suc i) zero v h = refl
get_or-set_ne (x ∷ xs) (suc i) (suc j) v h = get_or-set_ne xs i j v (λ e. h (ap suc e))

length-set_lem : (xs : List ℕ) (i v : ℕ) → length (set xs i v) ≡ length xs
length-set_lem [] i v = refl
length-set_lem (x ∷ xs) zero v = refl
length-set_lem (x ∷ xs) (suc i) v = ap suc (length-set_lem xs i v)

sum-set : (xs : List ℕ) (i v : ℕ) → i < length xs → sum (set xs i v) + get_or xs i 0 ≡ sum xs + v
unfolding sum
sum-set [] i v h = absurd (omega arith)
sum-set (x ∷ xs) zero v h = omega arith
sum-set (x ∷ xs) (suc i) v h = omega (arith, sum-set xs i v (omega arith))

pub length-hand_out :
    (order : List ℕ) (left : ℕ) (amounts : List ℕ)
    → length (hand_out order left amounts) ≡ length amounts
unfolding hand_out
length-hand_out [] left amounts = refl
length-hand_out (i ∷ rest) zero amounts = refl
length-hand_out (i ∷ rest) (suc left) amounts = omega (
  arith,
  length-hand_out rest left (set amounts i (get_or amounts i 0 + 1)),
  length-set_lem amounts i (get_or amounts i 0 + 1),
)

-- Handing out gives away exactly what is left, if the order is long enough.
pub sum-hand_out :
    (order : List ℕ) (left : ℕ) (amounts : List ℕ)
    → All (λ i. i < length amounts) order
    → left ≤ length order
    → sum (hand_out order left amounts) ≡ sum amounts + left
unfolding hand_out
sum-hand_out [] left amounts h l = omega arith
sum-hand_out (i ∷ rest) zero amounts h l = omega arith
sum-hand_out (i ∷ rest) (suc left) amounts h l =
    let more = get_or amounts i 0 + 1 in
    omega (
      arith,
      sum-set amounts i more h.0,
      sum-hand_out rest left (set amounts i more) (rw (length-set_lem amounts i more) h.1)
          (omega arith),
    )

-- An index gets one unit for each time it stands among the first places.
pub get_or-hand_out :
    (order : List ℕ) (left : ℕ) (amounts : List ℕ) (i : ℕ)
    → i < length amounts
    → get_or (hand_out order left amounts) i 0 ≡ get_or amounts i 0 + occurs i (take left order)
unfolding hand_out occurs
get_or-hand_out [] zero amounts i h = omega arith
get_or-hand_out [] (suc left) amounts i h = omega arith
get_or-hand_out (j ∷ rest) zero amounts i h = omega arith
get_or-hand_out (j ∷ rest) (suc left) amounts i h =
    let more = get_or amounts j 0 + 1 in
    let ih =
      get_or-hand_out rest left (set amounts j more) i (rw (length-set_lem amounts j more) h) in
    elim (Bool-cases (j == i)) [
      | inl e ↦
          let same : j ≡ i = (==_iff j i).0 e in
          ground (arith, ih, get_or-set_self amounts i more h)
      | inr n ↦ rw n (omega (arith, ih, get_or-set_ne amounts j i more (ground arith)))
    ]

All-occurs : (P : ℕ → Type 0) (i : ℕ) (xs : List ℕ) → All P xs → 1 ≤ occurs i xs → P i
unfolding occurs
All-occurs P i [] h o = absurd (omega arith)
All-occurs P i (x ∷ xs) h o = elim (Bool-cases (x == i)) [
  | inl e ↦ rw ((==_iff x i).0 e) at h.0
  | inr n ↦ All-occurs P i xs h.1 (rw n at o)
]

-- What may not stand behind stands in front: with `j` among the first places, so is `i`.
pub occurs-take_before :
    (before : ℕ → ℕ → Bool) (i j k : ℕ) (xs : List ℕ)
    → before j i ≡ false
    → IsSortedBy before xs
    → 1 ≤ occurs i xs
    → 1 ≤ occurs j (take k xs)
    → 1 ≤ occurs i (take k xs)
unfolding occurs
occurs-take_before before i j zero xs n s oi oj = absurd (omega arith)
occurs-take_before before i j (suc k) [] n s oi oj = absurd (omega arith)
occurs-take_before before i j (suc k) (x ∷ xs) n s oi oj = elim (Bool-cases (x == i)) [
  | inl e ↦ rw e (omega arith)
  | inr x≢i ↦
      let later = rw x≢i at oi in
      elim (Bool-cases (x == j)) [
        | inl e ↦
            let ordered = All-occurs _ i xs s.0 later in absurd (ground (arith, (==_iff x j).0 e))
        | inr x≢j ↦ rw x≢i (occurs-take_before before i j k xs n s.1 later (rw x≢j at oj))
      ]
]
