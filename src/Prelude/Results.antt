-- ===== src/Prelude/Results.antt =====
-- What a function returns that may throw: a value, or the error that it throws.
use mathlib.Core.Path.{◌≡◌, refl}
use mathlib.Core.Bool.{Bool, true, false}

pub data Result (E A : Type 0) : Type 0 where
  err : E → Result E A
  ok : A → Result E A

-- `if (test) throw e`
abbrev pub refuse : {E : Type 0} → Bool → E → Result E Unit
refuse false e = ok tt
refuse true e = err e

-- `if (!test) throw e`
abbrev pub require : {E : Type 0} → Bool → E → Result E Unit
require false e = err e
require true e = ok tt

infixl 5 ◌>>=◌ ◌>>◌
abbrev pub ◌>>=◌ : {E A B : Type 0} → Result E A → (A → Result E B) → Result E B
err thrown >>= next = err thrown
ok value >>= next = next value

abbrev pub ◌>>◌ : {E B : Type 0} → Result E Unit → Result E B → Result E B
first >> second = first >>= λ done. second

pub ok-inj : {E A : Type 0} {a b : A} → ◌≡◌ {A = Result E A} (ok a) (ok b) → a ≡ b
ok-inj same = cc

-- What is known of the steps when the whole returned.
pub refuse-eq-ok :
    {E B : Type 0} (test : Bool) (thrown : E) (rest : Result E B) {value : B}
    → (refuse test thrown >> rest) ≡ ok value
    → (test ≡ false) × (rest ≡ ok value)
refuse-eq-ok false thrown rest same = (refl, same)
refuse-eq-ok true thrown rest same = cc

pub require-eq-ok :
    {E B : Type 0} (test : Bool) (thrown : E) (rest : Result E B) {value : B}
    → (require test thrown >> rest) ≡ ok value
    → (test ≡ true) × (rest ≡ ok value)
require-eq-ok false thrown rest same = cc
require-eq-ok true thrown rest same = (refl, same)

pub >>=-eq-ok :
    {E A B : Type 0} (first : Result E A) (next : A → Result E B) {value : B}
    → (first >>= next) ≡ ok value
    → (mid : A) × (first ≡ ok mid) × (next mid ≡ ok value)
>>=-eq-ok (err thrown) next same = cc
>>=-eq-ok (ok mid) next same = (mid, refl, same)
