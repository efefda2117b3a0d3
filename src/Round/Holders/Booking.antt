-- ===== src/Round/Holders/Booking.antt =====
-- What reading the snapshots keeps true of the balances, and what it books.
use Prim.Native.String.{String}
use text.Mathlib.Text.{◌==◌ as str_eq}
use text.Mathlib.TextEquality.{eq_iff}
use stonkfolio.Prelude.{
  ℕ, zero, suc, ◌+◌, ◌<◌, ◌≡◌, ◌∙◌, refl, ap, Bool, true, false, List, [], ◌∷◌, length, get_or,
  length-replicate, length-set, All, Option, none, some, ok, ◌==◌, if◌then◌else◌, arith, Bool-cases,
  inl, inr, >>=-eq-ok,
}
use stonkfolio.Prelude.Int.{pos, pos_part}
use stonkfolio.Prelude.Maps.{lookup, lookup-insert}
use stonkfolio.Prelude.Picked.{Distinct}
use stonkfolio.Prelude.Entries.{keys_of, insert-Distinct, insert-All, lookup-All}
use stonkfolio.Round.Types.{TokenAccountRow, Keys}
use stonkfolio.Round.Holders.{
  Scan, add_at, samples_from, samples_of, place_as, place_row, read_row, read_rows,
}

-- What the rows book to a wallet: the sum of the amounts in its token accounts.
unfoldable pub held : String → List TokenAccountRow → ℕ
held o [] = 0
held o (row ∷ rows) = if str_eq row.owner o then pos_part row.amount + held o rows else held o rows

module _ (keys : Keys) (explicit : List (String × String)) (count : ℕ) where
  -- A wallet that counts: not excluded by name, not owned by a program, and a key.
  abbrev pub Counts : String → Type 0
  Counts o = (lookup o explicit ≡ none) × (keys.is_on_curve o ≡ true) × (keys.is_key o ≡ true)

  pub record IsScan (st : Scan) : Type 0 where
    pub sized : All (λ e. length e.1 ≡ count) st.balances
    pub admitted : All (λ e. Counts e.0) st.balances
    pub distinct : Distinct (keys_of st.balances)

  pub samples_of-length :
      (o : String) (m : List (String × List ℕ))
      → All (λ e. length e.1 ≡ count) m
      → length (samples_of count o m) ≡ count
  samples_of-length o m h = from (lookup o m) (λ v e. lookup-All (λ e. length e.1 ≡ count) o m h e)
    where
      from :
          (found : Option (List ℕ))
          → ((v : List ℕ) → found ≡ some v → length v ≡ count)
          → length (samples_from count found) ≡ count
      from none f = length-replicate count 0
      from (some v) f = f v refl

  place_as-IsScan :
      (sample : ℕ) (o : String) (amount : ℕ) (reason : Option String) (on : Bool) (st : Scan)
      → (reason ≡ none → on ≡ true → Counts o)
      → IsScan st
      → IsScan (place_as count sample o amount reason on st)
  unfolding place_as
  place_as-IsScan sample o amount (some r) on st c h = record {
    sized = h.sized;
    admitted = h.admitted;
    distinct = h.distinct;
  }
  place_as-IsScan sample o amount none false st c h = record {
    sized = h.sized;
    admitted = h.admitted;
    distinct = h.distinct;
  }
  place_as-IsScan sample o amount none true st c h =
      let old = samples_of count o st.balances in
      let new = add_at old sample amount in
      let sized : length new ≡ count =
        length-set old sample (get_or old sample 0 + amount)
        ∙ samples_of-length o st.balances h.sized in
      record {
        sized = insert-All (λ e. length e.1 ≡ count) o new st.balances sized h.sized;
        admitted = insert-All (λ e. Counts e.0) o new st.balances (c refl refl) h.admitted;
        distinct = insert-Distinct o new st.balances h.distinct;
      }

  -- What is booked to a wallet at a sample so far.
  abbrev pub booked : Scan → String → ℕ → ℕ
  booked st o k = get_or (samples_of count o st.balances) k 0

  -- A row adds its amount to its own wallet at its own sample, and nothing else.
  abbrev added : (sample : ℕ) (owner : String) (amount : ℕ) → String → ℕ → ℕ
  added sample owner amount o k = if str_eq owner o then (if sample == k then amount else 0) else 0

  get_or-add_at :
      (xs : List ℕ) (i amount k : ℕ)
      → i < length xs
      → get_or (add_at xs i amount) k 0 ≡ get_or xs k 0 + (if i == k then amount else 0)
  get_or-add_at [] i amount k h = absurd (omega arith)
  get_or-add_at (x ∷ xs) zero amount zero h = refl
  get_or-add_at (x ∷ xs) zero amount (suc k) h = ground arith
  get_or-add_at (x ∷ xs) (suc i) amount zero h = ground arith
  get_or-add_at (x ∷ xs) (suc i) amount (suc k) h =
      ground (arith, get_or-add_at xs i amount k (omega arith))

  place_as-booked :
      (sample : ℕ) (owner : String) (amount : ℕ) (reason : Option String) (on : Bool) (st : Scan)
      (o : String) (k : ℕ)
      → IsScan st
      → sample < count
      → (owner ≡ o → (reason ≡ none) × (on ≡ true))
      → booked (place_as count sample owner amount reason on st) o k
        ≡ booked st o k + added sample owner amount o k
  unfolding place_as
  place_as-booked sample owner amount (some r) on st o k h s c =
      elim (Bool-cases (str_eq owner o)) [
        | inl e ↦ let excluded = (c ((eq_iff owner o).0 e)).0 in cc
        | inr n ↦ rw n (omega arith)
      ]
  place_as-booked sample owner amount none false st o k h s c = elim (Bool-cases (str_eq owner o)) [
    | inl e ↦ let off = (c ((eq_iff owner o).0 e)).1 in cc
    | inr n ↦ rw n (omega arith)
  ]
  place_as-booked sample owner amount none true st o k h s c = elim (Bool-cases (str_eq owner o)) [
    | inl e ↦
        let same : owner ≡ o = (eq_iff owner o).0 e in
        rw
          (
            lookup-insert owner o (add_at (samples_of count owner st.balances) sample amount)
                st.balances,
            e,
          )
          (get_or-add_at (samples_of count owner st.balances) sample amount k
              (omega (arith, samples_of-length owner st.balances h.sized))
            ∙ ap (λ u. booked st u k + (if sample == k then amount else 0)) same)
    | inr n ↦
        rw
          (
            lookup-insert owner o (add_at (samples_of count owner st.balances) sample amount)
                st.balances,
            n,
          )
          (omega arith)
  ]

  read_row-lem :
      (sample index : ℕ) (row : TokenAccountRow) (st : Scan) {st' : Scan}
      → read_row keys explicit count sample index row st ≡ ok st'
      → (a : ℕ) × (row.amount ≡ pos a)
        × (st'
            ≡ place_row keys explicit count sample row.owner a
                (record st { addresses = row.address ∷ st.addresses }))
        × (lookup row.owner explicit ≡ none → keys.is_key row.owner ≡ true)
  unfolding read_row
  read_row-lem sample index row st h =
      (pos_part row.amount, ground arith, ground arith, λ e. ground (arith, e))

  read_row-booked :
      (sample index : ℕ) (row : TokenAccountRow) (st : Scan) {st' : Scan}
      → sample < count
      → read_row keys explicit count sample index row st ≡ ok st'
      → IsScan st
      → IsScan st'
        × ((o : String) (k : ℕ)
            → Counts o
            → booked st' o k ≡ booked st o k + added sample row.owner (pos_part row.amount) o k)
  unfolding place_row
  read_row-booked sample index row st s h inv =
      let (a, read, placed, keyed) = read_row-lem sample index row st h in
      let seen : Scan = record st { addresses = row.address ∷ st.addresses } in
      let seen-IsScan : IsScan seen = record {
        sized = inv.sized;
        admitted = inv.admitted;
        distinct = inv.distinct;
      } in
      rw (placed, read)
        (
          place_as-IsScan sample row.owner a (lookup row.owner explicit)
              (keys.is_on_curve row.owner) seen (λ e on. (e, on, keyed e)) seen-IsScan,
          λ o k c.
              place_as-booked sample row.owner a (lookup row.owner explicit)
                (keys.is_on_curve row.owner) seen o k seen-IsScan s (λ same. rw same (c.0, c.1)),
        )

  -- Reading the rows of a snapshot keeps the invariant, and books to each wallet that counts what it
  -- holds, at that sample only.
  pub read_rows-booked :
      (sample index : ℕ) (rows : List TokenAccountRow) (st : Scan) {st' : Scan}
      → sample < count
      → read_rows keys explicit count sample index rows st ≡ ok st'
      → IsScan st
      → IsScan st'
        × ((o : String) (k : ℕ)
            → Counts o
            → booked st' o k ≡ booked st o k + (if sample == k then held o rows else 0))
  unfolding read_rows held
  read_rows-booked sample index [] st {st'} s h inv =
      let same : st' ≡ st = cc in rw same (inv, λ o k c. ground arith)
  read_rows-booked sample index (row ∷ rows) st s h inv =
      let (mid, one, rest) = >>=-eq-ok (read_row keys explicit count sample index row st) _ h in
      let (mid-IsScan, first) = read_row-booked sample index row st s one inv in
      let (end-IsScan, later) = read_rows-booked sample index rows mid s rest mid-IsScan in
      (end-IsScan, λ o k c. ground (arith, first o k c, later o k c))
