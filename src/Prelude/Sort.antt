-- ===== src/Prelude/Sort.antt =====
-- `Array.prototype.sort`, which is stable, with the comparator as a test: `before a b` stands for
-- `compare(a, b) <= 0`.
use stonkfolio.Prelude.Tests.{if◌then◌else◌, Bool-cases}
use stonkfolio.Prelude.Lists.{All, length}
use Prim.Native.Nat.{suc}
use mathlib.Core.Path.{◌≡◌, refl}
use mathlib.Core.Logic.{inl, inr}
use mathlib.Core.Bool.{Bool, true, false}
use mathlib.Core.List.{List, [], ◌∷◌, Perm}
use mathlib.Core.List.Perm
use native.Mathlib.Omega.{arith}

module _ {ℓ} {A : Type ℓ} (before : A → A → Bool) where
  unfoldable pub insert_by : A → List A → List A
  insert_by x [] = x ∷ []
  insert_by x (y ∷ ys) = if before x y then x ∷ y ∷ ys else y ∷ insert_by x ys

  unfoldable pub sort_by : List A → List A
  unfolding insert_by
  sort_by [] = []
  sort_by (x ∷ xs) = insert_by x (sort_by xs)

  insert_by-perm : (x : A) (xs : List A) → Perm (insert_by x xs) (x ∷ xs)
  unfolding insert_by
  insert_by-perm x [] = Perm.rfl
  insert_by-perm x (y ∷ ys) = elim (Bool-cases (before x y)) [
    | inl e ↦ rw e Perm.rfl
    | inr e ↦ rw e (Perm.trans (Perm.cons y (insert_by-perm x ys)) (Perm.swap x y ys))
  ]

  -- Sorting rearranges.
  pub sort_by-perm : (xs : List A) → Perm (sort_by xs) xs
  unfolding sort_by
  sort_by-perm [] = Perm.rfl
  sort_by-perm (x ∷ xs) = Perm.trans (insert_by-perm x (sort_by xs)) (Perm.cons x (sort_by-perm xs))

  length-insert_by : (x : A) (xs : List A) → length (insert_by x xs) ≡ suc (length xs)
  unfolding insert_by
  length-insert_by x [] = refl
  length-insert_by x (y ∷ ys) = ground (arith, length-insert_by x ys)

  pub length-sort_by : (xs : List A) → length (sort_by xs) ≡ length xs
  unfolding sort_by
  length-sort_by [] = refl
  length-sort_by (x ∷ xs) = omega (arith, length-insert_by x (sort_by xs), length-sort_by xs)

  -- Every entry may stand before all later ones.
  abbrev pub IsSortedBy : List A → Type 0
  IsSortedBy [] = Unit
  IsSortedBy (x ∷ xs) = All (λ y. before x y ≡ true) xs × IsSortedBy xs

module _ {ℓ} {A : Type ℓ} (before : A → A → Bool) where
  insert_by-All {κ} :
      (P : A → Type κ) (x : A) (ys : List A) → P x → All P ys → All P (insert_by before x ys)
  unfolding insert_by
  insert_by-All P x [] px h = (px, tt)
  insert_by-All P x (y ∷ ys) px h = elim (Bool-cases (before x y)) [
    | inl e ↦ rw e (px, h)
    | inr e ↦ rw e (h.0, insert_by-All P x ys px h.1)
  ]

  pub sort_by-All {κ} : (P : A → Type κ) (xs : List A) → All P xs → All P (sort_by before xs)
  unfolding sort_by
  sort_by-All P [] h = tt
  sort_by-All P (x ∷ xs) h = insert_by-All P x (sort_by before xs) h.0 (sort_by-All P xs h.1)

module _ {ℓ κ} {A : Type ℓ} (before : A → A → Bool) (P : A → Type κ)
    (total : (a b : A) → before a b ≡ false → before b a ≡ true)
    (trans : (a b c : A)
      → P a
      → P b
      → P c
      → before a b ≡ true
      → before b c ≡ true
      → before a c ≡ true) where
  chain :
      (x y : A) (ys : List A)
      → P x
      → P y
      → before x y ≡ true
      → All P ys
      → All (λ z. before y z ≡ true) ys
      → All (λ z. before x z ≡ true) ys
  chain x y [] px py e ps h = tt
  chain x y (z ∷ zs) px py e ps h = (trans x y z px py ps.0 e h.0, chain x y zs px py e ps.1 h.1)

  insert_by-IsSortedBy :
      (x : A) (ys : List A)
      → P x
      → All P ys
      → IsSortedBy before ys
      → IsSortedBy before (insert_by before x ys)
  unfolding insert_by
  insert_by-IsSortedBy x [] px ps s = (tt, tt)
  insert_by-IsSortedBy x (y ∷ ys) px ps s = elim (Bool-cases (before x y)) [
    | inl e ↦ rw e ((e, chain x y ys px ps.0 e ps.1 s.0), s)
    | inr e ↦
        rw e (insert_by-All before _ x ys (total x y e) s.0, insert_by-IsSortedBy x ys px ps.1 s.1)
  ]

  -- Sorting by a total preorder sorts.
  pub sort_by-IsSortedBy : (xs : List A) → All P xs → IsSortedBy before (sort_by before xs)
  unfolding sort_by
  sort_by-IsSortedBy [] ps = tt
  sort_by-IsSortedBy (x ∷ xs) ps =
      insert_by-IsSortedBy x (sort_by before xs) ps.0 (sort_by-All before P xs ps.1)
        (sort_by-IsSortedBy xs ps.1)
