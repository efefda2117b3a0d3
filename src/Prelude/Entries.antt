-- ===== src/Prelude/Entries.antt =====
-- The entries of a map: their keys, and properties of all of them.
use Prim.Native.String.{String}
use text.Mathlib.Text.{◌==◌ as str_eq}
use text.Mathlib.TextEquality.{eq_iff}
use stonkfolio.Prelude.Tests.{if◌then◌else◌, Bool-cases}
use stonkfolio.Prelude.Lists.{All}
use stonkfolio.Prelude.Maps.{has, lookup, insert}
use stonkfolio.Prelude.Picked.{Distinct}
use stonkfolio.Prelude.Sort.{insert_by, sort_by}
use mathlib.Core.Path.{◌≡◌, refl, ◌∙◌}
use mathlib.Core.Logic.{inl, inr}
use mathlib.Core.Bool.{Bool, false, ◌||◌}
use mathlib.Core.List.{List, [], ◌∷◌, map}
use mathlib.Core.Option.{none, some}
use native.Mathlib.Omega.{arith}

module _ {ℓ} {V : Type ℓ} where
  abbrev pub keys_of : List (String × V) → List String
  keys_of m = map (λ e. e.0) m

  has-keys_of-insert :
      (j k : String) (v : V) (m : List (String × V))
      → has j (keys_of (insert k v m)) ≡ (str_eq k j || has j (keys_of m))
  unfolding has insert
  has-keys_of-insert j k v [] = refl
  has-keys_of-insert j k v ((i, w) ∷ m) =
      ground (arith, has-keys_of-insert j k v m, eq_iff i k, eq_iff i j, eq_iff k j)

  -- A write keeps the keys distinct.
  pub insert-Distinct :
      (k : String) (v : V) (m : List (String × V))
      → Distinct (keys_of m)
      → Distinct (keys_of (insert k v m))
  unfolding insert Distinct has
  insert-Distinct k v [] d = (refl, tt)
  insert-Distinct k v ((i, w) ∷ m) d = elim (Bool-cases (str_eq i k)) [
    | inl e ↦ let same : i ≡ k = ground (arith, eq_iff i k) in rw e (rw same at d)
    | inr n ↦ rw n (
      ground (arith, has-keys_of-insert i k v m, eq_iff i k, eq_iff k i, d.0),
      insert-Distinct k v m d.1,
    )
  ]

  pub insert-All {κ} :
      (P : String × V → Type κ) (k : String) (v : V) (m : List (String × V))
      → P (k, v)
      → All P m
      → All P (insert k v m)
  unfolding insert
  insert-All P k v [] p h = (p, tt)
  insert-All P k v ((i, w) ∷ m) p h = elim (Bool-cases (str_eq i k)) [
    | inl e ↦ rw e (p, h.1)
    | inr n ↦ rw n (h.0, insert-All P k v m p h.1)
  ]

  pub lookup-All {κ} :
      (P : String × V → Type κ) (k : String) (m : List (String × V)) {v : V}
      → All P m
      → lookup k m ≡ some v
      → P (k, v)
  unfolding lookup
  lookup-All P k [] h e = cc
  lookup-All P k ((i, w) ∷ m) {v} h e = elim (Bool-cases (str_eq i k)) [
    | inl s ↦
        let same : i ≡ k = ground (arith, eq_iff i k) in
        let value : w ≡ v = ground arith in rw same at (rw value at h.0)
    | inr n ↦ lookup-All P k m h.1 (rw n at e)
  ]

  others :
      (j : String) (m : List (String × V))
      → has j (keys_of m) ≡ false
      → All (λ e. str_eq j e.0 ≡ false) m
  unfolding has
  others j [] h = tt
  others j ((i, w) ∷ m) h = (ground (arith, eq_iff i j, eq_iff j i), others j m (ground arith))

  -- With distinct keys every entry is found by its key.
  pub All-lookup :
      (m : List (String × V)) → Distinct (keys_of m) → All (λ e. lookup e.0 m ≡ some e.1) m
  unfolding lookup Distinct
  All-lookup [] d = tt
  All-lookup ((i, w) ∷ m) d =
      (ground (arith, eq_iff i i), both m (others i m d.0) (All-lookup m d.1))
    where
      both :
          (l : List (String × V))
          → All (λ e. str_eq i e.0 ≡ false) l
          → All (λ e. lookup e.0 m ≡ some e.1) l
          → All (λ e. (if str_eq i e.0 then some w else lookup e.0 m) ≡ some e.1) l
      both [] a b = tt
      both (e ∷ l) a b = (rw a.0 b.0, both l a.1 b.1)

  pub lookup-absent :
      (k : String) (m : List (String × V)) → has k (keys_of m) ≡ false → lookup k m ≡ none
  unfolding has lookup
  lookup-absent k [] h = refl
  lookup-absent k ((i, w) ∷ m) h = ground (arith, lookup-absent k m)

-- Sorting keeps names distinct.
module _ {ℓ} {A : Type ℓ} (before : A → A → Bool) (name : A → String) where
  has-insert_by :
      (k : String) (x : A) (xs : List A)
      → has k (map name (insert_by before x xs)) ≡ (str_eq (name x) k || has k (map name xs))
  unfolding has insert_by
  has-insert_by k x [] = refl
  has-insert_by k x (y ∷ ys) = ground (arith, has-insert_by k x ys)

  insert_by-Distinct :
      (x : A) (xs : List A)
      → has (name x) (map name xs) ≡ false
      → Distinct (map name xs)
      → Distinct (map name (insert_by before x xs))
  unfolding insert_by Distinct has
  insert_by-Distinct x [] n d = (n, d)
  insert_by-Distinct x (y ∷ ys) n d = elim (Bool-cases (before x y)) [
    | inl e ↦ rw e (n, d)
    | inr e ↦ rw e (
      ground (
        arith,
        has-insert_by (name y) x ys,
        eq_iff (name x) (name y),
        eq_iff (name y) (name x),
        d.0,
      ),
      insert_by-Distinct x ys (ground arith) d.1,
    )
  ]

  pub has-sort_by :
      (k : String) (xs : List A) → has k (map name (sort_by before xs)) ≡ has k (map name xs)
  unfolding has sort_by
  has-sort_by k [] = refl
  has-sort_by k (x ∷ xs) = ground (arith, has-insert_by k x (sort_by before xs), has-sort_by k xs)

  pub sort_by-Distinct :
      (xs : List A) → Distinct (map name xs) → Distinct (map name (sort_by before xs))
  unfolding sort_by Distinct
  sort_by-Distinct [] d = tt
  sort_by-Distinct (x ∷ xs) d =
      insert_by-Distinct x (sort_by before xs) (has-sort_by (name x) xs ∙ d.0)
        (sort_by-Distinct xs d.1)
