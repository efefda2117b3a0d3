-- ===== src/Round/Likely/Cap.antt =====
-- What the capped count comes to, and whose balances it counts.
use Prim.Native.String.{String}
use stonkfolio.Prelude.{
  ℕ, suc, ◌+◌, ◌*◌, ◌<◌, ◌≤◌, ◌≡◌, ◌∙◌, ◌&&◌, ◌||◌, not, ltb, ap, ap₂, refl, sym, subst, length-map,
  some, ◌↔◌, min, Bool, true, false, List, [], ◌∷◌, length, filter, All, leb, arith, Bool-cases,
  inl, inr,
}
use text.Mathlib.Text.{◌==◌ as str_eq}
use text.Mathlib.TextEquality.{eq_iff}
use stonkfolio.Prelude.Int.{ℤ, pos, pos_part, ◌+ℤ◌, ◌*ℤ◌, leb_ℤ, ltb_ℤ}
use stonkfolio.Prelude.Maps.{has, lookup, insert, lookup-insert}
use stonkfolio.Prelude.Picked.{Picked, done, skip, keep, Picked-Distinct, Distinct}
use stonkfolio.Prelude.Entries.{keys_of, All-lookup, lookup-absent, insert-All, insert-Distinct}
use stonkfolio.Round.Types.{Rational, TokenAccountRow, Keys}
use stonkfolio.Round.Holders.{lamports_per_sol}
use stonkfolio.Round.Holders.Booking.{held}
use stonkfolio.Round.Median.Sign.{IsPrice}
use stonkfolio.Round.Likely.{Opts, amount_of, by_owner, clears, count_from, count_likely_eligible}

sum_pos : (n m : ℕ) → pos n +ℤ pos m ≡ pos (n + m)
unfolding ◌+ℤ◌
sum_pos n m = ground arith

mul_pos : (n m : ℕ) → pos n *ℤ pos m ≡ pos (n * m)
unfolding ◌*ℤ◌
mul_pos n m = ground arith

-- The tests on numbers that are not negative.
signs :
    (h x y : ℕ) (c : Bool)
    → (not ((leb_ℤ (pos h) (pos 0) && leb_ℤ (pos 0) (pos h)) || ltb_ℤ (pos x) (pos y)) && c)
      ≡ (not ((leb h 0 && leb 0 h) || ltb x y) && c)
signs h x y c = ground arith

test_facts :
    (h x y : ℕ) (c : Bool)
    → (not ((leb h 0 && leb 0 h) || ltb x y) && c) ≡ true
    → (0 < h) × (y ≤ x) × (c ≡ true)
test_facts h x y c t = ground (arith, t)

facts_test :
    (h x y : ℕ) (c : Bool)
    → 0 < h
    → y ≤ x
    → c ≡ true
    → (not ((leb h 0 && leb 0 h) || ltb x y) && c) ≡ true
facts_test h x y c p q r = ground (arith, p, q, r)

count_from_lem :
    (passes : String × ℤ → Bool) (cap count : ℕ) (entries : List (String × ℤ))
    → count ≤ cap
    → count_from passes cap count entries ≡ min cap (count + length (filter passes entries))
unfolding count_from
count_from_lem passes cap count [] h = ground arith
count_from_lem passes cap count (entry ∷ rest) h = elim (Bool-cases (passes entry)) [
  | inr over ↦ rw over (count_from_lem passes cap count rest h)
  | inl counted ↦ elim (Bool-cases (leb cap (suc count))) [
    | inl full ↦ rw (counted, full) (ground arith)
    | inr room ↦
        let ih = count_from_lem passes cap (suc count) rest (ground arith) in
        rw (counted, room) (omega (arith, ih))
  ]
]

by_owner-admitted :
    (excluded : List String) (rows : List TokenAccountRow) (m : List (String × ℤ))
    → All (λ e. has e.0 excluded ≡ false) m
    → Distinct (keys_of m)
    → All (λ e. has e.0 excluded ≡ false) (by_owner excluded rows m)
      × Distinct (keys_of (by_owner excluded rows m))
unfolding by_owner
by_owner-admitted excluded [] m h d = (h, d)
by_owner-admitted excluded (row ∷ rows) m h d = elim (Bool-cases (has row.owner excluded)) [
  | inl out ↦ rw out (by_owner-admitted excluded rows m h d)
  | inr fine ↦ rw fine (
      by_owner-admitted excluded rows _
        (insert-All (λ e. has e.0 excluded ≡ false) row.owner _ m fine h)
        (insert-Distinct row.owner _ m d))
]

-- What is recorded of an owner that is not excluded: the sum of its balances.
by_owner-held :
    (excluded : List String) (o : String) (rows : List TokenAccountRow) (m : List (String × ℤ))
    (n : ℕ)
    → All (λ r. r.amount ≡ pos (pos_part r.amount)) rows
    → has o excluded ≡ false
    → amount_of (lookup o m) ≡ pos n
    → amount_of (lookup o (by_owner excluded rows m)) ≡ pos (n + held o rows)
unfolding by_owner held
by_owner-held excluded o [] m n a x e = e ∙ ap pos (omega arith)
by_owner-held excluded o (row ∷ rows) m n a x e = elim (Bool-cases (str_eq row.owner o)) [
  | inl same ↦
      let owner : row.owner ≡ o = (eq_iff row.owner o).0 same in
      let fine : has row.owner excluded ≡ false = rw owner x in
      let more =
        by_owner-held excluded o rows
          (insert row.owner (amount_of (lookup row.owner m) +ℤ row.amount) m)
          (n + pos_part row.amount) a.1 x
          (rw (lookup-insert row.owner o (amount_of (lookup row.owner m) +ℤ row.amount) m, same)
            (ap₂ ◌+ℤ◌ (ap (λ k. amount_of (lookup k m)) owner ∙ e) a.0
              ∙ sum_pos n (pos_part row.amount))) in
      rw (fine, same) (more ∙ ap pos (omega arith))
  | inr other ↦ elim (Bool-cases (has row.owner excluded)) [
    | inl out ↦ rw (out, other) (by_owner-held excluded o rows m n a.1 x e)
    | inr fine ↦
        rw (fine, other)
          (by_owner-held excluded o rows _ n a.1 x (
            rw (lookup-insert row.owner o (amount_of (lookup row.owner m) +ℤ row.amount) m, other)
              e))
  ]
]

-- An owner that counts: not excluded, with a balance over all of its accounts whose worth at the pool's
-- price and that of SOL is at the threshold, and on the curve where others are left out.
pub record IsLikely (keys : Keys) (accounts : List TokenAccountRow) (price : Rational)
    (sol_usd_micro min_eligible : ℕ) (opts : Opts) (o : String) : Type 0 where
  pub admitted : has o opts.excluded ≡ false
  pub holds : 0 < held o accounts
  pub worth :
      min_eligible * pos_part price.den * lamports_per_sol
      ≤ held o accounts * pos_part price.num * sol_usd_micro
  pub on_curve : (not opts.exclude_off_curve || (keys.is_key o && keys.is_on_curve o)) ≡ true

module _ (keys : Keys) (accounts : List TokenAccountRow) (price : Rational)
    (sol_usd_micro min_eligible : ℕ) (opts : Opts) (sound : IsPrice price)
    (bar : opts.min_eligible_usd_micro ≡ pos min_eligible) where
  passes : String × ℤ → Bool
  unfolding clears
  passes = clears keys price (pos sol_usd_micro) opts

  passes_lem :
      (o : String) (h : ℕ)
      → passes (o, pos h) ≡ (
          not (
            (leb h 0 && leb 0 h)
            || ltb
                (h * pos_part price.num * sol_usd_micro)
                (min_eligible * pos_part price.den * lamports_per_sol))
          && (not opts.exclude_off_curve || (keys.is_key o && keys.is_on_curve o)))
  unfolding passes clears
  passes_lem o h =
      let worth =
        ap (λ w. w *ℤ pos sol_usd_micro) (ap (pos h *ℤ◌) sound.num ∙ mul_pos h (pos_part price.num))
        ∙ mul_pos (h * pos_part price.num) sol_usd_micro in
      let threshold =
        ap (λ w. w *ℤ pos lamports_per_sol)
          (ap₂ ◌*ℤ◌ bar sound.den ∙ mul_pos min_eligible (pos_part price.den))
        ∙ mul_pos (min_eligible * pos_part price.den) lamports_per_sol in
      ap₂
        (λ w t.
          not ((leb_ℤ (pos h) (pos 0) && leb_ℤ (pos 0) (pos h)) || ltb_ℤ w t)
          && (not opts.exclude_off_curve || (keys.is_key o && keys.is_on_curve o)))
        worth threshold
      ∙ signs h (h * pos_part price.num * sol_usd_micro)
          (min_eligible * pos_part price.den * lamports_per_sol) _

  -- What an entry holds, and that it is admitted.
  IsEntry : String × ℤ → Type 0
  unfolding held
  IsEntry e = (e.1 ≡ pos (held e.0 accounts)) × (has e.0 opts.excluded ≡ false)

  cleared : List (String × ℤ) → List String
  unfolding passes
  cleared l = keys_of (filter passes l)

  cleared-IsLikely :
      (o : String) (l : List (String × ℤ))
      → All IsEntry l
      → has o (cleared l) ≡ true
      → IsLikely keys accounts price sol_usd_micro min_eligible opts o
  unfolding cleared IsEntry has
  cleared-IsLikely o [] a h = cc
  cleared-IsLikely o (e ∷ l) a h = elim (Bool-cases (passes e)) [
    | inr over ↦ cleared-IsLikely o l a.1 (rw over at h)
    | inl counted ↦ elim (Bool-cases (str_eq e.0 o)) [
      | inr other ↦ cleared-IsLikely o l a.1 (rw other at (rw counted at h))
      | inl same ↦
          subst (IsLikely keys accounts price sol_usd_micro min_eligible opts)
            ((eq_iff e.0 o).0 same)
            (likely e.0 a.0.1 (
              sym (passes_lem e.0 (held e.0 accounts))
              ∙ ap (λ v. passes (e.0, v)) (sym a.0.0)
              ∙ counted))
    ]
  ]
    where
      likely :
          (o : String)
          → has o opts.excluded ≡ false
          → (not (
                (leb (held o accounts) 0 && leb 0 (held o accounts))
                || ltb
                    (held o accounts * pos_part price.num * sol_usd_micro)
                    (min_eligible * pos_part price.den * lamports_per_sol))
              && (not opts.exclude_off_curve || (keys.is_key o && keys.is_on_curve o)))
            ≡ true
          → IsLikely keys accounts price sol_usd_micro min_eligible opts o
      likely o x t =
          let facts = test_facts (held o accounts) _ _ _ t in
          record { admitted = x; holds = facts.0; worth = facts.1; on_curve = facts.2 }

  likely-cleared :
      (o : String) (l : List (String × ℤ))
      → All IsEntry l
      → has o (keys_of l) ≡ true
      → IsLikely keys accounts price sol_usd_micro min_eligible opts o
      → has o (cleared l) ≡ true
  unfolding cleared IsEntry has
  likely-cleared o [] a h p = cc
  likely-cleared o (e ∷ l) a h p = elim (Bool-cases (str_eq e.0 o)) [
    | inl same ↦
        let mine =
          subst (IsLikely keys accounts price sol_usd_micro min_eligible opts)
            (sym ((eq_iff e.0 o).0 same)) p in
        let counted : passes e ≡ true =
          ap (λ v. passes (e.0, v)) a.0.0
          ∙ passes_lem e.0 (held e.0 accounts)
          ∙ facts_test (held e.0 accounts) _ _ _ mine.holds mine.worth mine.on_curve in
        rw (counted, same) refl
    | inr other ↦ elim (Bool-cases (passes e)) [
      | inl counted ↦ rw (counted, other) (likely-cleared o l a.1 (rw other at h) p)
      | inr over ↦ rw over (likely-cleared o l a.1 (rw other at h) p)
    ]
  ]

  entries : List (String × ℤ)
  unfolding by_owner
  entries = by_owner opts.excluded accounts []

  module _ (counted : All (λ r. r.amount ≡ pos (pos_part r.amount)) accounts) where
    held_by :
        (o : String)
        → has o opts.excluded ≡ false
        → amount_of (lookup o entries) ≡ pos (held o accounts)
    unfolding entries lookup
    held_by o x = by_owner-held opts.excluded o accounts [] 0 counted x refl ∙ ap pos (omega arith)

    both :
        (l : List (String × ℤ))
        → All (λ e. has e.0 opts.excluded ≡ false) l
        → All (λ e. lookup e.0 entries ≡ some e.1) l
        → All IsEntry l
    unfolding IsEntry
    both [] x f = tt
    both (e ∷ l) x f = ((ap amount_of (sym f.0) ∙ held_by e.0 x.0, x.0), both l x.1 f.1)

    entries_complete :
        (o : String)
        → IsLikely keys accounts price sol_usd_micro min_eligible opts o
        → has o (keys_of entries) ≡ true
    entries_complete o p = elim (Bool-cases (has o (keys_of entries))) [
      | inl found ↦ found
      | inr missing ↦
          let nothing =
            sym (held_by o p.admitted) ∙ ap amount_of (lookup-absent o entries missing) in
          let holds = p.holds in absurd (ground (arith, nothing, holds))
    ]

  cleared-Picked : (l : List (String × ℤ)) → Picked (cleared l) (keys_of l)
  unfolding cleared
  cleared-Picked [] = done
  cleared-Picked (e ∷ l) = elim (Bool-cases (passes e)) [
    | inl counted ↦ rw counted (keep (cleared-Picked l))
    | inr over ↦ rw over (skip (cleared-Picked l))
  ]

  cleared-Distinct : (l : List (String × ℤ)) → Distinct (keys_of l) → Distinct (cleared l)
  unfolding cleared Distinct
  cleared-Distinct l d = Picked-Distinct (cleared-Picked l) d

  cleared-length : (l : List (String × ℤ)) → length (cleared l) ≡ length (filter passes l)
  unfolding cleared
  cleared-length l = length-map (λ (e : String × ℤ). e.0) (filter passes l)

-- The count is the number of likely owners, cut at the cap: there is a list without repetition that holds
-- exactly the owners that are not excluded, whose balances over all accounts add up to a worth at the
-- threshold, and that are on the curve where others are left out; where no balance is negative, the price
-- is sound and the price of SOL and the threshold are not negative.
pub count_likely_eligible-min :
    (keys : Keys) (accounts : List TokenAccountRow) (price : Rational)
    (sol_usd_micro min_eligible : ℕ) (opts : Opts)
    → IsPrice price
    → opts.min_eligible_usd_micro ≡ pos min_eligible
    → All (λ r. r.amount ≡ pos (pos_part r.amount)) accounts
    → (owners : List String) × Distinct owners
      × ((o : String)
          → (has o owners ≡ true) ↔ IsLikely keys accounts price sol_usd_micro min_eligible opts o)
      × (count_likely_eligible keys accounts price (pos sol_usd_micro) opts
          ≡ min opts.cap (length owners))
unfolding count_likely_eligible Distinct entries cleared
count_likely_eligible-min keys accounts price sol_usd_micro min_eligible opts sound bar amounts =
    let found = by_owner opts.excluded accounts [] in
    let (admitted, once) = by_owner-admitted opts.excluded accounts [] tt tt in
    let all =
      both keys accounts price sol_usd_micro min_eligible opts sound bar amounts found admitted
        (All-lookup found once) in
    (
      cleared keys accounts price sol_usd_micro min_eligible opts sound bar found,
      cleared-Distinct keys accounts price sol_usd_micro min_eligible opts sound bar found once,
      λ o. (
        cleared-IsLikely keys accounts price sol_usd_micro min_eligible opts sound bar o found all,
        λ p.
            likely-cleared keys accounts price sol_usd_micro min_eligible opts sound bar o found all
              (entries_complete keys accounts price sol_usd_micro min_eligible opts sound bar
                amounts o p)
              p,
      ),
      count_from_lem (clears keys price (pos sol_usd_micro) opts) opts.cap 0 found (omega arith)
          ∙ ap (min opts.cap) (
              omega (
                arith,
                cleared-length keys accounts price sol_usd_micro min_eligible opts sound bar found,
              )),
    )
