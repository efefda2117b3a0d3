-- ===== src/Journal/Settle.antt =====
-- Settling the journal: what stays in it, and that nothing is booked twice.
use text.Mathlib.Text.{◌==◌ as str_eq}
use text.Mathlib.TextEquality.{eq_iff}
use Prim.Native.String.{String}
use stonkfolio.Prelude.{
  ◌≡◌, ◌⊎◌, inl, inr, Bool, true, false, not, List, [], ◌∷◌, filter, All, All-map, none, some, ok,
  arith, refl, sym, subst, Bool-cases, >>=-eq-ok, Option, Result, if◌then◌else◌,
}
use stonkfolio.Prelude.Int.{ℤ}
use stonkfolio.FeeSplit.{FeeSplitBps, Error}
use stonkfolio.Send.{
  Rpc, landed, pending, failed, expired, SignatureOutcome, resolve_signature, lamport_change,
  LamportChange,
}
use stonkfolio.Journal.{
  PendingAction, State, Kind, claim, spend, book, book_as, credit_revenue, received_of, drop_action,
  settle_landed, settle_outcome, settle_action, settle_actions, settle_pending,
}

Elem : PendingAction → List PendingAction → Type 0
Elem p [] = ⊥
Elem p (a ∷ rest) = (p ≡ a) ⊎ Elem p rest

All-filter :
    (P Q : PendingAction → Type 0) (keep : PendingAction → Bool)
    → ((p : PendingAction) → keep p ≡ true → P p → Q p)
    → (xs : List PendingAction) → All P xs
    → All Q (filter keep xs)
All-filter P Q keep f [] h = tt
All-filter P Q keep f (x ∷ xs) h = elim (Bool-cases (keep x)) [
  | inl e ↦ rw e (f x e h.0, All-filter P Q keep f xs h.1)
  | inr e ↦ rw e (All-filter P Q keep f xs h.1)
]

All-Elem :
    (P : PendingAction → Type 0) (xs : List PendingAction)
    → ((p : PendingAction) → Elem p xs → P p)
    → All P xs
unfolding Elem
All-Elem P [] f = tt
All-Elem P (x ∷ xs) f = (f x (inl refl), All-Elem P xs (λ p e. f p (inr e)))

module _ (rpc : Rpc) (keeper : String) where
  -- Still in flight, or landed and not yet indexed.
  abbrev pub Waits : PendingAction → Type 0
  Waits p =
      (resolve_signature rpc p.signature p.last_valid_block_height ≡ pending)
      ⊎ ((resolve_signature rpc p.signature p.last_valid_block_height ≡ landed)
          × (lamport_change rpc p.signature keeper ≡ none))

  abbrev Open : List PendingAction → PendingAction → Type 0
  Open todo p = Waits p ⊎ Elem p todo

  module _ (shares : FeeSplitBps) where
    settle_action-Waits :
        (a : PendingAction) (s : State) (c : Bool)
        → Waits a
        → settle_action rpc keeper shares a (s, c) ≡ ok (s, c)
    unfolding settle_action
    settle_action-Waits a s c (inl w) = rw w
    settle_action-Waits a s c (inr (w, v)) = rw (w, settle_outcome, v)

    book_as-pending :
        (k : Kind) (label : String) (delta : ℤ) (s : State) {b : State}
        → book_as shares k label delta s ≡ ok b
        → b.pending ≡ s.pending
    unfolding book_as
    book_as-pending (spend _) label delta s h = ground arith
    book_as-pending claim label delta s h =
        let (l, _, e) = >>=-eq-ok (credit_revenue shares (received_of delta) s.ledger) _ h in
        ground arith

    -- A round of the loop drops its action from a state with the same journal.
    abbrev Dropped : PendingAction → State → State → Type 0
    Dropped a s s' = (b : State) × (b.pending ≡ s.pending) × (s' ≡ drop_action a b)

    settle_landed-cases :
        (a : PendingAction) (s : State) (c : Bool) (o : Option LamportChange) {r : State × Bool}
        → settle_landed rpc keeper shares a (s, c) o ≡ ok r
        → (o ≡ none) × (r ≡ (s, c)) ⊎ Dropped a s r.0 × (r.1 ≡ true)
    unfolding settle_landed book
    settle_landed-cases a s c none h = inl (refl, cc)
    settle_landed-cases a s c (some d) h =
        let (b, e, same) = >>=-eq-ok (book shares a d.delta s) _ h in
        inr ((b, book_as-pending a.kind a.label d.delta s e, cc), cc)

    settle_outcome-cases :
        (a : PendingAction) (s : State) (c : Bool) (o : SignatureOutcome) {r : State × Bool}
        → settle_outcome rpc keeper shares a (s, c) o ≡ ok r
        → ((o ≡ pending) ⊎ (o ≡ landed) × (lamport_change rpc a.signature keeper ≡ none))
            × (r ≡ (s, c))
          ⊎ Dropped a s r.0 × (r.1 ≡ true)
    unfolding settle_outcome
    settle_outcome-cases a s c pending h = inl (inl refl, cc)
    settle_outcome-cases a s c landed h =
        elim (settle_landed-cases a s c (lamport_change rpc a.signature keeper) h) [
          | inl (n, e) ↦ inl (inr (refl, n), e)
          | inr d ↦ inr d
        ]
    settle_outcome-cases a s c failed h = inr ((s, refl, cc), cc)
    settle_outcome-cases a s c expired h = inr ((s, refl, cc), cc)

    drop_action-Open :
        (a : PendingAction) (todo : List PendingAction) (s s' : State)
        → Dropped a s s'
        → All (Open (a ∷ todo)) s.pending
        → All (Open todo) s'.pending
    unfolding drop_action Elem
    drop_action-Open a todo s s' (b, same, e) h = rw e (
        All-filter (Open (a ∷ todo)) (Open todo) _ still b.pending
          (subst (All (Open (a ∷ todo))) (sym same) h))
      where
        still :
            (p : PendingAction)
            → not (str_eq p.signature a.signature) ≡ true
            → Open (a ∷ todo) p
            → Open todo p
        still p kept (inl w) = inl w
        still p kept (inr (inl same_action)) =
            let other = rw same_action at kept in
            absurd (ground (arith, eq_iff a.signature a.signature))
        still p kept (inr (inr later)) = inr later

    -- A round of the loop keeps open only what is still to come, and what waits.
    settle_action-Open :
        (a : PendingAction) (todo : List PendingAction) (s : State) (c : Bool) {r : State × Bool}
        → settle_action rpc keeper shares a (s, c) ≡ ok r
        → All (Open (a ∷ todo)) s.pending
        → All (Open todo) r.0.pending
    unfolding settle_action Elem
    settle_action-Open a todo s c {r} h open_before = elim (settle_outcome-cases a s c _ h) [
      | inl (w, e) ↦ rw e (
          All-map {Q = Open todo}
            (λ p o. elim o [
              | inl v ↦ inl v
              | inr (inl same) ↦ inl (rw same w)
              | inr (inr later) ↦ inr later
            ])
            s.pending open_before)
      | inr (d, _) ↦ drop_action-Open a todo s r.0 d open_before
    ]

    settle_actions-Waits :
        (todo : List PendingAction) (s : State) (c : Bool) {r : State × Bool}
        → settle_actions rpc keeper shares todo (s, c) ≡ ok r
        → All (Open todo) s.pending
        → All Waits r.0.pending
    unfolding settle_actions Elem
    settle_actions-Waits [] s c {r} h open_before =
        let e : r ≡ (s, c) = cc in
        rw e (
          All-map {Q = Waits} (λ p o. elim o [ inl w ↦ w | inr none_left ↦ absurd none_left ])
            s.pending open_before)
    settle_actions-Waits (a ∷ todo) s c h open_before =
        let ((s', c'), one, rest) = >>=-eq-ok (settle_action rpc keeper shares a (s, c)) _ h in
        settle_actions-Waits todo s' c' rest (settle_action-Open a todo s c one open_before)

    settle_actions_idle :
        (todo : List PendingAction) (s : State) (c : Bool)
        → All Waits todo
        → settle_actions rpc keeper shares todo (s, c) ≡ ok (s, c)
    unfolding settle_actions
    settle_actions_idle [] s c h = refl
    settle_actions_idle (a ∷ todo) s c h =
        rw (settle_action-Waits a s c h.0) (settle_actions_idle todo s c h.1)

    by_flag :
        (s s' : State) (c : Bool) (t : State)
        → ◌≡◌ {A = Result Error State} (ok (if c then t else s)) (ok s')
        → All Waits t.pending
        → (s' ≡ s) ⊎ All Waits s'.pending
    by_flag s s' true t e w = let same : s' ≡ t = cc in inr (rw same w)
    by_flag s s' false t e w = inl cc

    settle_pending-cases :
        (s s' : State)
        → settle_pending rpc keeper shares s ≡ ok s'
        → (s' ≡ s) ⊎ All Waits s'.pending
    unfolding settle_pending Elem
    settle_pending-cases s s' h =
        let ((t, c), run, last) =
          >>=-eq-ok (settle_actions rpc keeper shares s.pending (s, false)) _ h in
        let waiting =
          settle_actions-Waits s.pending s false run (All-Elem _ s.pending (λ p e. inr e)) in
        by_flag s s' c t last waiting

    -- Against the same answers of the chain a second run of `settlePending`, after one that returned,
    -- returns and leaves the whole state as it is.
    pub settle_pending_idempotent :
        (s s' : State)
        → settle_pending rpc keeper shares s ≡ ok s'
        → settle_pending rpc keeper shares s' ≡ ok s'
    unfolding settle_pending
    settle_pending_idempotent s s' h = elim (settle_pending-cases s s' h) [
      | inl same ↦ rw (← same) at h
      | inr w ↦ rw (settle_actions_idle s'.pending s' false w)
    ]
