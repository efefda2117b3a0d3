-- ===== src/Engine/Safe.antt =====
-- Well-formed states of keeper/round/engine.ts, and runs that keep them.
use Prim.Native.String.{String}
use stonkfolio.Prelude.{
  ℕ, ◌≡◌, List, Option, none, some, Bool, true, false, All, Result, err, ok, refl, if◌then◌else◌,
}
use stonkfolio.Store.{KeeperState, ActiveRound, RoundStatus}
use stonkfolio.Store.{credit_inventory}
use stonkfolio.Store.Inventory.{credit_inventory-rest}
use stonkfolio.Prelude.{subst, sym}
use stonkfolio.Engine.{
  Answer, ask, Error, not_collecting, Report, Memory, Run, ◌>>=◌, return, lift, throw, save,
  confirm, recall, RoundParams,
}
use stonkfolio.Engine.Costs.{
  round_header_space, round_intent_space, round_asset_space, vault_space_estimate, estimate_cost,
  estimate_operating_cost,
}
use stonkfolio.Prelude.{◌>>=◌ as bind}
use stonkfolio.Engine.Finish.Kept.{Unlisted, DistinctIds}

-- The statuses of a collecting round, and those of a paying one.
abbrev pub may_collect : RoundStatus → Bool
may_collect status = elim status [
  | RoundStatus.committed ↦ false
  | RoundStatus.active ↦ false
  | _ ↦ true
]

abbrev pub may_pay : RoundStatus → Bool
may_pay status = elim status [
  | RoundStatus.committed ↦ true
  | RoundStatus.active ↦ true
  | _ ↦ false
]

-- The collecting round has a collecting status and an id of its own.
abbrev pub MayCollect : ActiveRound → List ActiveRound → Type 0
MayCollect r paying = (may_collect r.status ≡ true) × Unlisted r.round_id paying

abbrev pub Collects : Option ActiveRound → List ActiveRound → Type 0
Collects none paying = Unit
Collects (some r) paying = MayCollect r paying

-- Every paying round has a paying status, and no two have one id.
abbrev pub Pays : List ActiveRound → Type 0
Pays paying = All (λ r. may_pay r.status ≡ true) paying × DistinctIds paying

abbrev pub IsWellFormed : KeeperState → Type 0
IsWellFormed s = Collects s.round s.paying × Pays s.paying

-- The error for a round that collects with the status of a paying one.
abbrev pub is_misplaced : Error → Bool
is_misplaced failure = elim failure [ not_collecting status ↦ true | _ ↦ false ]

abbrev pub Ends : {A : Type 0} → (A → Type 0) → Result Error A → Type 0
Ends Q (err failure) = is_misplaced failure ≡ false
Ends Q (ok value) = Q value

-- From a well-formed state on disk the run leaves one there, it does not end in that error, and what
-- it returns is as stated.
pub record Safe {A : Type 0} (Q : A → Type 0) (run : Run A) : Type 0 where
  pub runs : (m : Memory) → IsWellFormed m.disk → IsWellFormed (run m).0.disk × Ends Q (run m).1

-- A handler's state and report.
abbrev pub Kept : KeeperState × Report → Type 0
Kept (s, report) = IsWellFormed s

module _ {A : Type 0} {Q : A → Type 0} where
  pub Safe-return : (value : A) → Q value → Safe Q (return value)
  unfolding return
  Safe-return value q = record { runs = λ m w. (w, q) }

  pub Safe-throw : (failure : Error) → is_misplaced failure ≡ false → Safe Q (throw failure)
  unfolding throw
  Safe-throw failure e = record { runs = λ m w. (w, e) }

  pub Safe-if : (test : Bool) {x y : Run A} → Safe Q x → Safe Q y → Safe Q (if test then x else y)
  Safe-if true p q = p
  Safe-if false p q = q

  pub Safe-choice :
      (test : Bool) {x y : Run A}
      → Safe Q x
      → Safe Q y
      → Safe Q (elim test [ true ↦ x | false ↦ y ])
  Safe-choice true p q = p
  Safe-choice false p q = q

  pub Safe-option :
      {B : Type 0} (o : Option B) {x : Run A} {f : B → Run A}
      → Safe Q x
      → ((b : B) → Safe Q (f b))
      → Safe Q (elim o [ none ↦ x | some b ↦ f b ])
  Safe-option none p q = p
  Safe-option (some b) p q = q b

  pub Safe-answer :
      {B : Type 0} (o : Answer B) {x : String → Run A} {f : B → Run A}
      → ((text : String) → Safe Q (x text))
      → ((b : B) → Safe Q (f b))
      → Safe Q (elim o [ err text ↦ x text | ok b ↦ f b ])
  Safe-answer (err text) p q = p text
  Safe-answer (ok b) p q = q b

-- Asking throws nothing but the call's own error.
pub Safe-ask :
    {A : Type 0} (answer : Answer A) → Safe (λ value. answer ≡ ok value) (lift (ask answer))
unfolding lift
Safe-ask (err text) = record { runs = λ m w. (w, refl) }
Safe-ask (ok value) = record { runs = λ m w. (w, refl) }

pub Safe-save : (s : KeeperState) → IsWellFormed s → Safe (λ done. Unit) (save s)
unfolding save
Safe-save s kept = record { runs = λ m w. (kept, tt) }

pub Safe-confirm : (id : Option ℕ) → Safe (λ done. Unit) (confirm id)
unfolding confirm
Safe-confirm id = record { runs = λ m w. (w, tt) }

pub Safe-recall : Safe (λ id. Unit) recall
unfolding recall
Safe-recall = record { runs = λ m w. (w, tt) }

-- A result that is no such error, and as stated.
pub record Returns {A : Type 0} (Q : A → Type 0) (result : Result Error A) : Type 0 where
  pub ends : Ends Q result

pub Returns-ok : {A : Type 0} {Q : A → Type 0} (value : A) → Q value → Returns Q (ok value)
Returns-ok value q = record { ends = q }

pub Returns-err :
    {A : Type 0} {Q : A → Type 0} (failure : Error)
    → is_misplaced failure ≡ false
    → Returns Q (err failure)
Returns-err failure e = record { ends = e }

pub Returns-if :
    {A : Type 0} {Q : A → Type 0} (test : Bool) {x y : Result Error A}
    → Returns Q x
    → Returns Q y
    → Returns Q (if test then x else y)
Returns-if true p q = p
Returns-if false p q = q

pub Returns-choice :
    {A : Type 0} {Q : A → Type 0} (test : Bool) {x y : Result Error A}
    → Returns Q x
    → Returns Q y
    → Returns Q (elim test [ true ↦ x | false ↦ y ])
Returns-choice true p q = p
Returns-choice false p q = q

pub Returns-option :
    {A B : Type 0} {Q : A → Type 0} (o : Option B) {x : Result Error A} {f : B → Result Error A}
    → Returns Q x
    → ((b : B) → Returns Q (f b))
    → Returns Q (elim o [ none ↦ x | some b ↦ f b ])
Returns-option none p q = p
Returns-option (some b) p q = q b

pub Returns-answer :
    {A B : Type 0} {Q : A → Type 0} (o : Answer B) {x : String → Result Error A}
    {f : B → Result Error A}
    → ((text : String) → Returns Q (x text))
    → ((b : B) → Returns Q (f b))
    → Returns Q (elim o [ err text ↦ x text | ok b ↦ f b ])
Returns-answer (err text) p q = p text
Returns-answer (ok b) p q = q b

pub Returns-ask :
    {A : Type 0} (answer : Answer A) → Returns (λ value. answer ≡ ok value) (ask answer)
Returns-ask (err text) = record { ends = refl }
Returns-ask (ok value) = record { ends = refl }

-- The same in the words of a match on the result.
pub Returns-result :
    {A B : Type 0} {Q : A → Type 0} {R : B → Type 0} (r : Result Error A) {f : A → Result Error B}
    → Returns Q r
    → ((value : A) → Q value → Returns R (f value))
    → Returns R (elim r [ err failure ↦ err failure | ok value ↦ f value ])
Returns-result (err failure) p k = record { ends = p.ends }
Returns-result (ok value) p k = k value p.ends

pub Returns-any : {A : Type 0} (answer : Answer A) → Returns (λ value. Unit) (ask answer)
Returns-any (err text) = record { ends = refl }
Returns-any (ok value) = record { ends = tt }

pub Returns-bind :
    {A B : Type 0} {Q : A → Type 0} {R : B → Type 0} (first : Result Error A)
    {next : A → Result Error B}
    → Returns Q first
    → ((value : A) → Q value → Returns R (next value))
    → Returns R (bind first next)
Returns-bind (err failure) p k = record { ends = p.ends }
Returns-bind (ok value) p k = k value p.ends

pub Safe-lift :
    {A : Type 0} {Q : A → Type 0} {result : Result Error A}
    → Returns Q result
    → Safe Q (lift result)
unfolding lift
Safe-lift r = record { runs = λ m w. (w, r.ends) }

pub estimate_cost-Returns :
    (rent : ℕ → Answer ℕ) (params : RoundParams) (pot eligible : ℕ)
    → Returns (λ cost. Unit) (estimate_cost rent params pot eligible)
unfolding estimate_cost
estimate_cost-Returns rent params pot eligible =
    Returns-bind (ask (rent 165)) (Returns-ask (rent 165)) (λ value e. Returns-ok _ tt)

pub estimate_operating_cost-Returns :
    (rent : ℕ → Answer ℕ) (params : RoundParams) (eligible assets : ℕ)
    → Returns (λ cost. Unit) (estimate_operating_cost rent params eligible assets)
unfolding estimate_operating_cost
estimate_operating_cost-Returns rent params eligible assets =
    Returns-bind (ask (rent 165)) (Returns-ask (rent 165)) (λ value e.
      Returns-bind (ask (rent round_header_space)) (Returns-ask (rent round_header_space))
        (λ header f.
          Returns-bind (ask (rent round_intent_space)) (Returns-ask (rent round_intent_space))
            (λ intent g.
              Returns-bind (ask (rent (round_asset_space eligible)))
                (Returns-ask (rent (round_asset_space eligible)))
                (λ asset h.
                  Returns-bind (ask (rent vault_space_estimate))
                    (Returns-ask (rent vault_space_estimate)) (λ vault i. Returns-ok _ tt)))))

module _ {A B : Type 0} {Q : A → Type 0} {R : B → Type 0} where
  continue :
      (r : Memory × Result Error A) (next : A → Run B) (m : Memory)
      → IsWellFormed r.0.disk × Ends Q r.1
      → ((value : A) → Q value → Safe R (next value))
      → IsWellFormed (((λ start. r) >>= next) m).0.disk × Ends R (((λ start. r) >>= next) m).1
  unfolding ◌>>=◌
  continue (after, err failure) next m h k = h
  continue (after, ok value) next m h k = (k value h.1).runs after h.0

  pub Safe-bind :
      {first : Run A} {next : A → Run B}
      → Safe Q first
      → ((value : A) → Q value → Safe R (next value))
      → Safe R (first >>= next)
  unfolding ◌>>=◌
  Safe-bind {first} {next} p k = record { runs = λ m w. continue (first m) next m (p.runs m w) k }

-- A credit and a round of another id leave the shape of the state as it is.
pub credit_inventory-IsWellFormed :
    (mint program : String) (amount : ℕ) (s : KeeperState)
    → IsWellFormed s
    → IsWellFormed (credit_inventory mint program amount s)
credit_inventory-IsWellFormed mint program amount s w =
    let same = credit_inventory-rest mint program amount s in
    subst
      (λ r.
        Collects r (credit_inventory mint program amount s).paying
        × Pays (credit_inventory mint program amount s).paying)
      (sym same.1) (subst (λ ps. Collects s.round ps × Pays ps) (sym same.2) w)
