-- ===== src/Prelude/Picked.antt =====
-- Lists that are left when entries are dropped, and lists of texts without repetition.
use Prim.Native.String.{String}
use Prim.Native.Nat.{◌≤◌}
use stonkfolio.Prelude.Tests.{Bool-cases}
use stonkfolio.Prelude.Lists.{length, filter, All}
use stonkfolio.Prelude.Maps.{has}
use mathlib.Core.Path.{◌≡◌}
use mathlib.Core.Logic.{inl, inr}
use mathlib.Core.Bool.{Bool, false}
use mathlib.Core.List.{List, [], ◌∷◌, map}
use native.Mathlib.Omega.{arith}

pub data Picked {ℓ} {A : Type ℓ} : List A → List A → Type ℓ where
  done : Picked [] []
  skip : {y : A} {xs ys : List A} → Picked xs ys → Picked xs (y ∷ ys)
  keep : {x : A} {xs ys : List A} → Picked xs ys → Picked (x ∷ xs) (x ∷ ys)

module _ {ℓ} {A : Type ℓ} where
  pub Picked-refl : (xs : List A) → Picked xs xs
  Picked-refl [] = done
  Picked-refl (x ∷ xs) = keep (Picked-refl xs)

  pub Picked-nil : (xs : List A) → Picked [] xs
  Picked-nil [] = done
  Picked-nil (x ∷ xs) = skip (Picked-nil xs)

  pub Picked-trans : {ys zs : List A} → Picked ys zs → {xs : List A} → Picked xs ys → Picked xs zs
  Picked-trans done p = p
  Picked-trans (skip q) p = skip (Picked-trans q p)
  Picked-trans (keep q) (skip p) = skip (Picked-trans q p)
  Picked-trans (keep q) (keep p) = keep (Picked-trans q p)

  pub Picked-length : {xs ys : List A} → Picked xs ys → length xs ≤ length ys
  Picked-length done = omega arith
  Picked-length (skip p) = omega (arith, Picked-length p)
  Picked-length (keep p) = omega (arith, Picked-length p)

  pub Picked-All {κ} : (P : A → Type κ) {xs ys : List A} → Picked xs ys → All P ys → All P xs
  Picked-All P done h = tt
  Picked-All P (skip p) h = Picked-All P p h.1
  Picked-All P (keep p) h = (h.0, Picked-All P p h.1)

  pub Picked-filter : (p : A → Bool) (xs : List A) → Picked (filter p xs) xs
  Picked-filter p [] = done
  Picked-filter p (x ∷ xs) = elim (Bool-cases (p x)) [
    | inl e ↦ rw e (keep (Picked-filter p xs))
    | inr e ↦ rw e (skip (Picked-filter p xs))
  ]

pub Picked-map {ℓ κ} :
    {A : Type ℓ} {B : Type κ} (f : A → B) {xs ys : List A}
    → Picked xs ys
    → Picked (map f xs) (map f ys)
Picked-map f done = done
Picked-map f (skip p) = skip (Picked-map f p)
Picked-map f (keep p) = keep (Picked-map f p)

-- No text stands twice.
unfoldable pub Distinct : List String → Type 0
Distinct [] = Unit
Distinct (o ∷ rest) = (has o rest ≡ false) × Distinct rest

has-Picked : (o : String) {xs ys : List String} → Picked xs ys → has o ys ≡ false → has o xs ≡ false
unfolding has
has-Picked o done h = h
has-Picked o (skip p) h = has-Picked o p (ground arith)
has-Picked o (keep p) h = ground (arith, has-Picked o p)

pub Picked-Distinct : {xs ys : List String} → Picked xs ys → Distinct ys → Distinct xs
unfolding Distinct
Picked-Distinct done d = tt
Picked-Distinct (skip p) d = Picked-Distinct p d.1
Picked-Distinct (keep p) d = (has-Picked _ p d.0, Picked-Distinct p d.1)
