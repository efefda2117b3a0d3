-- ===== src/Round/Holders/Total.antt =====
-- When `computeHolders` returns: what it asks of the snapshots is enough.
use Prim.Native.String.{String}
use text.Mathlib.TextEquality.{eq_iff}
use stonkfolio.Prelude.{
  ℕ, zero, suc, ◌-◌, ◌/◌, ◌<◌, ◌≡◌, refl, Bool, true, false, not, List, [], ◌∷◌, map, length,
  length-map, any, All, get_elem?, Option, none, some, Option-cases, inl, inr, Result, ok, err,
  ◌==◌, arith,
}
use stonkfolio.Prelude.Int.{pos, pos_part, leb_ℤ}
use stonkfolio.Prelude.Sort.{sort_by, sort_by-All, length-sort_by}
use stonkfolio.Prelude.Maps.{has, lookup}
use stonkfolio.Prelude.Picked.{Distinct}
use stonkfolio.Prelude.Entries.{insert-All}
use stonkfolio.Round.Types.{Rational, TokenAccountRow, Snapshot, ExclusionEntry, Keys, Error}
use stonkfolio.Round.Median.{is_bad_price, le_rational, median_rational}
use stonkfolio.Round.Holders.{
  Scan, has_bad_key, le_slot, has_repeated_index, exclusion_map, place_as, place_row, read_row,
  read_rows, read_samples, HolderTable, compute_holders,
}

-- Owners that are keys, no negative balance, no account listed twice, and a price that is one.
pub record IsReadable (keys : Keys) (s : Snapshot) : Type 0 where
  pub amounts : All (λ r. r.amount ≡ pos (pos_part r.amount)) s.accounts
  pub owners : All (λ r. keys.is_key r.owner ≡ true) s.accounts
  pub once : Distinct (map (λ r. r.address) s.accounts)
  pub price : is_bad_price s.pool_price ≡ false

module _ (keys : Keys) (explicit : List (String × String)) (count : ℕ) where
  place_as-addresses :
      (sample : ℕ) (o : String) (amount : ℕ) (reason : Option String) (on : Bool) (st : Scan)
      → (place_as count sample o amount reason on st).addresses ≡ st.addresses
  unfolding place_as
  place_as-addresses sample o amount (some r) on st = refl
  place_as-addresses sample o amount none false st = refl
  place_as-addresses sample o amount none true st = refl

  -- The excluded wallets stay keys.
  place_as-excluded :
      (sample : ℕ) (o : String) (amount : ℕ) (reason : Option String) (on : Bool) (st : Scan)
      → keys.is_key o ≡ true
      → All (λ e. keys.is_key e.0 ≡ true) st.excluded
      → All (λ e. keys.is_key e.0 ≡ true) (place_as count sample o amount reason on st).excluded
  unfolding place_as
  place_as-excluded sample o amount (some r) on st k x =
      insert-All (λ e. keys.is_key e.0 ≡ true) o r st.excluded k x
  place_as-excluded sample o amount none false st k x =
      insert-All (λ e. keys.is_key e.0 ≡ true) o _ st.excluded k x
  place_as-excluded sample o amount none true st k x = x

  read_row-ok :
      (sample index : ℕ) (row : TokenAccountRow) (st : Scan)
      → row.amount ≡ pos (pos_part row.amount)
      → keys.is_key row.owner ≡ true
      → has row.address st.addresses ≡ false
      → All (λ e. keys.is_key e.0 ≡ true) st.excluded
      → (st' : Scan) × (read_row keys explicit count sample index row st ≡ ok st')
        × (st'.addresses ≡ row.address ∷ st.addresses)
        × All (λ e. keys.is_key e.0 ≡ true) st'.excluded
  unfolding read_row place_row
  read_row-ok sample index row st a k f x = (
    place_row keys explicit count sample row.owner (pos_part row.amount)
        (record st { addresses = row.address ∷ st.addresses }),
    elim (Option-cases (lookup row.owner explicit)) [
      | inl e ↦ rw (a, f, k, e) refl
      | inr (r, e) ↦ rw (a, f, e) refl
    ],
    place_as-addresses sample row.owner (pos_part row.amount) (lookup row.owner explicit)
        (keys.is_on_curve row.owner) (record st { addresses = row.address ∷ st.addresses }),
    place_as-excluded sample row.owner (pos_part row.amount) (lookup row.owner explicit)
        (keys.is_on_curve row.owner) (record st { addresses = row.address ∷ st.addresses }) k x,
  )

  Fresh : List TokenAccountRow → List String → Type 0
  Fresh rows seen = All (λ r. has r.address seen ≡ false) rows

  Fresh-nil : (rows : List TokenAccountRow) → Fresh rows []
  unfolding Fresh has
  Fresh-nil [] = tt
  Fresh-nil (r ∷ rows) = (refl, Fresh-nil rows)

  Fresh-cons :
      (a : String) (rows : List TokenAccountRow) (seen : List String)
      → has a (map (λ r. r.address) rows) ≡ false
      → Fresh rows seen
      → Fresh rows (a ∷ seen)
  unfolding Fresh has
  Fresh-cons a [] seen d f = tt
  Fresh-cons a (r ∷ rows) seen d f = (
    ground (arith, f.0, eq_iff a r.address, eq_iff r.address a),
    Fresh-cons a rows seen (ground arith) f.1,
  )

  read_rows-ok :
      (sample index : ℕ) (rows : List TokenAccountRow) (st : Scan)
      → All (λ r. r.amount ≡ pos (pos_part r.amount)) rows
      → All (λ r. keys.is_key r.owner ≡ true) rows
      → Distinct (map (λ r. r.address) rows)
      → Fresh rows st.addresses
      → All (λ e. keys.is_key e.0 ≡ true) st.excluded
      → (st' : Scan) × (read_rows keys explicit count sample index rows st ≡ ok st')
        × All (λ e. keys.is_key e.0 ≡ true) st'.excluded
  unfolding read_rows Distinct Fresh
  read_rows-ok sample index [] st a k d f x = (st, refl, x)
  read_rows-ok sample index (row ∷ rows) st a k d f x =
      let (mid, one, seen, kept) = read_row-ok sample index row st a.0 k.0 f.0 x in
      let (end, rest, last) =
        read_rows-ok sample index rows mid a.1 k.1 d.1
          (rw seen (Fresh-cons row.address rows st.addresses d.0 f.1)) kept in
      (end, rw one rest, last)

  read_samples-ok :
      (sample : ℕ) (snapshots : List Snapshot) (st : Scan)
      → All (IsReadable keys) snapshots
      → All (λ e. keys.is_key e.0 ≡ true) st.excluded
      → (st' : Scan) × (read_samples keys explicit count sample snapshots st ≡ ok st')
        × All (λ e. keys.is_key e.0 ≡ true) st'.excluded
  unfolding read_samples
  read_samples-ok sample [] st h x = (st, refl, x)
  read_samples-ok sample (s ∷ rest) st h x =
      let (mid, one, kept) =
        read_rows-ok sample s.index s.accounts (record st { addresses = [] }) h.0.amounts h.0.owners
          h.0.once (Fresh-nil s.accounts) x in
      let (end, more, last) = read_samples-ok (suc sample) rest mid h.1 kept in
      (end, rw one more, last)

get_elem?-some :
    {A : Type 0} (xs : List A) (i : ℕ) → i < length xs → (x : A) × (get_elem? xs i ≡ some x)
get_elem?-some [] i h = absurd (omega arith)
get_elem?-some (x ∷ xs) zero h = (x, refl)
get_elem?-some (x ∷ xs) (suc i) h = get_elem?-some xs i (omega arith)

median_rational-ok :
    (values : List Rational)
    → 0 < length values
    → any is_bad_price values ≡ false
    → (m : Rational) × (median_rational values ≡ ok m)
unfolding median_rational
median_rational-ok [] h good = absurd (omega arith)
median_rational-ok (v ∷ values) h good =
    let sized = length-sort_by le_rational (v ∷ values) in
    let (m, found) =
      get_elem?-some (sort_by le_rational (v ∷ values)) ((length (v ∷ values) - 1) / 2)
        (omega (arith, sized)) in
    (m, rw (good, found) refl)

any-good :
    (keys : Keys) (l : List Snapshot)
    → All (IsReadable keys) l
    → any is_bad_price (map (λ s. s.pool_price) l) ≡ false
any-good keys [] h = refl
any-good keys (s ∷ l) h = let good = h.0.price in ground (arith, good, any-good keys l h.1)

all_keys :
    (keys : Keys) (l : List (String × String))
    → All (λ e. keys.is_key e.0 ≡ true) l
    → any (λ e. not (keys.is_key e.0)) l ≡ false
all_keys keys [] h = refl
all_keys keys (e ∷ l) h = rw h.0 (all_keys keys l h.1)

is_ok : Result Error HolderTable → Bool
is_ok (ok table) = true
is_ok (err e) = false

returned : (r : Result Error HolderTable) → is_ok r ≡ true → (table : HolderTable) × (r ≡ ok table)
unfolding is_ok
returned (ok table) h = (table, refl)
returned (err e) h = cc

-- `computeHolders` returns a table whenever there is a snapshot, the price of SOL is above 0, no index
-- comes twice, and each snapshot has owners that are keys, no negative balance, no account twice and a sound price.
pub compute_holders-returns :
    (keys : Keys) (snapshots : List Snapshot) (exclusions : List ExclusionEntry)
    (sol_usd_micro min_eligible : ℕ)
    → 0 < length snapshots
    → 0 < sol_usd_micro
    → has_repeated_index snapshots ≡ false
    → All (IsReadable keys) snapshots
    → (table : HolderTable) × (compute_holders keys snapshots exclusions
          (pos sol_usd_micro)
          min_eligible
        ≡ ok table)
unfolding compute_holders is_ok
compute_holders-returns keys snapshots exclusions sol_usd_micro min_eligible n p i h =
    let by_slot = sort_by le_slot snapshots in
    let sized = length-sort_by le_slot snapshots in
    let readable = sort_by-All le_slot (IsReadable keys) snapshots h in
    let (st, scanned, known) =
      read_samples-ok keys (exclusion_map exclusions []) (length by_slot) 0 by_slot
        (record { addresses = []; excluded = []; balances = [] }) readable tt in
    let (m, median) =
      median_rational-ok (map (λ (s : Snapshot). s.pool_price) by_slot)
        (omega (arith, sized, length-map (λ (s : Snapshot). s.pool_price) by_slot))
        (any-good keys by_slot readable) in
    let sortable : has_bad_key keys st.excluded ≡ false =
      ground (arith, all_keys keys st.excluded known) in
    let some_snapshot : (length snapshots == 0) ≡ false = ground arith in
    let positive : leb_ℤ (pos sol_usd_micro) (pos 0) ≡ false = ground arith in
    returned _ (rw (some_snapshot, positive, i, scanned, median, sortable) refl)
