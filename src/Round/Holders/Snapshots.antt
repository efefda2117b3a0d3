-- ===== src/Round/Holders/Snapshots.antt =====
-- What reading all the snapshots of a round books to a wallet.
use Prim.Native.String.{String}
use stonkfolio.Prelude.{
  ℕ, zero, suc, ◌+◌, ◌<◌, ◌≡◌, ◌∙◌, refl, List, [], ◌∷◌, map, length, get_or, replicate, length-map,
  ap₂, ◌≤◌, ok, ◌==◌, if◌then◌else◌, arith, >>=-eq-ok,
}
use stonkfolio.Prelude.Maps.{lookup}
use stonkfolio.Prelude.Picked.{Distinct}
use stonkfolio.Round.Types.{Snapshot, Keys}
use stonkfolio.Round.Holders.{Scan, samples_of, read_rows, read_samples}
use stonkfolio.Round.Holders.Booking.{
  held, IsScan, Counts, booked, samples_of-length, read_rows-booked,
}

module _ (keys : Keys) (explicit : List (String × String)) (count : ℕ) where
  -- What the snapshots from a position on book to a wallet at a sample.
  held_at : String → (sample : ℕ) → List Snapshot → ℕ → ℕ
  held_at o sample [] k = 0
  held_at o sample (s ∷ rest) k =
      (if sample == k then held o s.accounts else 0) + held_at o (suc sample) rest k

  read_samples-booked :
      (sample : ℕ) (snapshots : List Snapshot) (st : Scan) {st' : Scan}
      → sample + length snapshots ≤ count
      → read_samples keys explicit count sample snapshots st ≡ ok st'
      → IsScan keys explicit count st
      → IsScan keys explicit count st'
        × ((o : String) (k : ℕ)
            → Counts keys explicit count o
            → booked keys explicit count st' o k
              ≡ booked keys explicit count st o k + held_at o sample snapshots k)
  unfolding read_samples held_at
  read_samples-booked sample [] st {st'} l h inv =
      let same : st' ≡ st = cc in rw same (inv, λ o k c. omega arith)
  read_samples-booked sample (s ∷ rest) st l h inv =
      let fresh : Scan = record st { addresses = [] } in
      let (mid, one, more) =
        >>=-eq-ok (read_rows keys explicit count sample s.index s.accounts fresh) _ h in
      let (mid-IsScan, first) =
        read_rows-booked keys explicit count sample s.index s.accounts fresh (omega arith) one
          (record { sized = inv.sized; admitted = inv.admitted; distinct = inv.distinct }) in
      let (end-IsScan, later) =
        read_samples-booked (suc sample) rest mid (omega arith) more mid-IsScan in
      (end-IsScan, λ o k c. omega (arith, first o k c, later o k c))

  held_at-past :
      (o : String) (sample : ℕ) (snapshots : List Snapshot) (k : ℕ)
      → k < sample
      → held_at o sample snapshots k ≡ 0
  unfolding held_at
  held_at-past o sample [] k h = refl
  held_at-past o sample (s ∷ rest) k h =
      ground (arith, held_at-past o (suc sample) rest k (omega arith))

  held_at-map :
      (o : String) (sample : ℕ) (snapshots : List Snapshot) (k : ℕ)
      → held_at o sample snapshots (sample + k)
        ≡ get_or (map (λ s. held o s.accounts) snapshots) k 0
  unfolding held_at
  held_at-map o sample [] k = refl
  held_at-map o sample (s ∷ rest) zero =
      ground (arith, held_at-past o (suc sample) rest (sample + 0) (omega arith))
  held_at-map o sample (s ∷ rest) (suc k) =
      let step : sample + suc k ≡ suc sample + k = omega arith in
      let ih = held_at-map o (suc sample) rest k in rw step (ground (arith, ih))

  list_ext :
      (xs ys : List ℕ) → length xs ≡ length ys → ((k : ℕ) → get_or xs k 0 ≡ get_or ys k 0) → xs ≡ ys
  list_ext [] [] l h = refl
  list_ext [] (y ∷ ys) l h = absurd (omega arith)
  list_ext (x ∷ xs) [] l h = absurd (omega arith)
  list_ext (x ∷ xs) (y ∷ ys) l h = ap₂ ◌∷◌ (h 0) (list_ext xs ys (omega arith) (λ k. h (suc k)))

  get_or-replicate : (n k : ℕ) → ◌≡◌ {A = ℕ} (get_or (replicate n 0) k 0) 0
  get_or-replicate zero k = refl
  get_or-replicate (suc n) zero = refl
  get_or-replicate (suc n) (suc k) = get_or-replicate n k

  -- Read from an empty start, all snapshots book to each wallet exactly what it holds in each.
  pub read_samples-held :
      (snapshots : List Snapshot) {st : Scan}
      → length snapshots ≡ count
      → read_samples keys explicit count 0 snapshots
          (record { addresses = []; excluded = []; balances = [] })
        ≡ ok st
      → IsScan keys explicit count st
        × ((o : String)
            → Counts keys explicit count o
            → samples_of count o st.balances ≡ map (λ s. held o s.accounts) snapshots)
  unfolding lookup Distinct
  read_samples-held snapshots l h =
      let start : Scan = record { addresses = []; excluded = []; balances = [] } in
      let (end-IsScan, all) =
        read_samples-booked 0 snapshots start (omega arith) h
          (record { sized = tt; admitted = tt; distinct = tt }) in
      (
        end-IsScan,
        λ o c.
            list_ext _ _
              (omega (
                arith,
                samples_of-length keys explicit count o _ end-IsScan.sized,
                length-map (λ (s : Snapshot). held o s.accounts) snapshots,
              ))
              λ k.
                let zero_start = get_or-replicate count k in
                let start_at : 0 + k ≡ k = omega arith in
                let total = rw start_at at (held_at-map o 0 snapshots k) in
                all o k c ∙ omega (arith, zero_start, total),
      )
