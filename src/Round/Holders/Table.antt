-- ===== src/Round/Holders/Table.antt =====
-- What `computeHolders` promises of its table: each row's holding over time, and who is in it.
use Prim.Native.String.{String}
use stonkfolio.Prelude.{
  ℕ, zero, suc, ◌+◌, ◌*◌, ◌/◌, ◌<◌, ◌≤◌, ◌≡◌, ◌↔◌, ◌∙◌, sym, subst, refl, ap, true, List, [], ◌∷◌,
  map, length, All, some, ok, ◌==◌, ltb, leb, ◌&&◌, arith, Bool-cases, inl, inr, >>=-eq-ok,
  refuse-eq-ok, ok-inj, replicate,
}
use native.Mathlib.Nat.{
  le-div_iff_mul-le, div-mul-le_self, mod-lt, div-add-mod', mul_assoc, suc-mul,
}
use stonkfolio.Prelude.Int.{ℤ, pos, pos_part, leb_ℤ}
use stonkfolio.Prelude.Sums.{sum}
use stonkfolio.Prelude.Sort.{insert_by, sort_by, sort_by-All, length-sort_by}
use stonkfolio.Prelude.Maps.{has, lookup}
use stonkfolio.Prelude.Picked.{Distinct}
use stonkfolio.Prelude.Entries.{keys_of, All-lookup, lookup-absent, sort_by-Distinct, has-sort_by}
use stonkfolio.Round.Types.{Rational, Snapshot, HolderRow, ExclusionEntry, Keys}
use stonkfolio.Round.Median.{median_rational}
use stonkfolio.Round.Median.Sign.{IsPrice, median_rational-IsPrice}
use stonkfolio.Round.Median.Rank.{IsLowerMedian, median_rational-IsLowerMedian}
use stonkfolio.Round.Holders.{
  lamports_per_sol, le_slot, le_key, has_repeated_index, exclusion_map, Scan, samples_of,
  samples_from, read_samples, holder_row, twab_of, has_bad_key, HolderTable, compute_holders,
}
use stonkfolio.Round.Holders.Booking.{held, IsScan, Counts}
use stonkfolio.Round.Holders.Snapshots.{read_samples-held}
use stonkfolio.Round.Holders.Exclusions.{IsUnlisted, lookup-exclusion_map, exclusion_map-lookup}

-- What a wallet holds in all the snapshots together.
unfoldable pub total_held : String → List Snapshot → ℕ
total_held o snapshots = sum (map (λ s. held o s.accounts) snapshots)

-- A wallet that takes part: not excluded by name, a point of the curve, and a key.
abbrev pub TakesPart : Keys → List ExclusionEntry → String → Type 0
TakesPart keys exclusions o =
    IsUnlisted exclusions o × (keys.is_on_curve o ≡ true) × (keys.is_key o ≡ true)

pub record IsHolder (keys : Keys) (snapshots : List Snapshot) (exclusions : List ExclusionEntry)
    (price : Rational) (sol_usd_micro min_eligible : ℕ) (h : HolderRow) : Type 0 where
  pub admitted : TakesPart keys exclusions h.owner
  -- Its balances are what it holds in each snapshot, in the order of the slots.
  pub balances : h.sample_balances ≡ map (λ s. held h.owner s.accounts) (sort_by le_slot snapshots)
  -- Its average is the whole part of its total over the number of snapshots.
  pub average_low : h.twab * length snapshots ≤ total_held h.owner snapshots
  pub average_high : total_held h.owner snapshots < suc h.twab * length snapshots
  -- Its value is the whole part of what its average is worth at the price in lamports and that of SOL.
  pub value_low :
      h.value_usd_micro * (pos_part price.den * lamports_per_sol)
      ≤ h.twab * pos_part price.num * sol_usd_micro
  pub value_high :
      h.twab * pos_part price.num * sol_usd_micro
      < suc h.value_usd_micro * (pos_part price.den * lamports_per_sol)
  -- It is eligible when it held anything on average and is worth the minimum.
  pub bar : (h.eligible ≡ true) ↔ (0 < h.twab × min_eligible ≤ h.value_usd_micro)

pub record IsTable (keys : Keys) (snapshots : List Snapshot) (exclusions : List ExclusionEntry)
    (sol_usd_micro min_eligible : ℕ) (table : HolderTable) : Type 0 where
  -- The price is the lower median of the snapshots' prices.
  pub median :
      IsLowerMedian table.median_pool_price (map (λ s. s.pool_price) (sort_by le_slot snapshots))
  pub rows :
      All
        (IsHolder keys snapshots exclusions table.median_pool_price sol_usd_micro min_eligible)
        table.holders
  -- No wallet has two rows.
  pub once : Distinct (map (λ h. h.owner) table.holders)
  -- No wallet that takes part and holds something is left out.
  pub complete :
      (o : String)
      → TakesPart keys exclusions o
      → 0 < total_held o snapshots
      → has o (map (λ h. h.owner) table.holders) ≡ true

sum-insert_by :
    (f : Snapshot → ℕ) (s : Snapshot) (l : List Snapshot)
    → sum (map f (insert_by le_slot s l)) ≡ f s + sum (map f l)
unfolding insert_by sum
sum-insert_by f s [] = refl
sum-insert_by f s (r ∷ l) = ground (arith, sum-insert_by f s l)

sum-sort_by :
    (f : Snapshot → ℕ) (l : List Snapshot) → sum (map f (sort_by le_slot l)) ≡ sum (map f l)
unfolding sort_by sum
sum-sort_by f [] = refl
sum-sort_by f (s ∷ l) = omega (arith, sum-insert_by f s (sort_by le_slot l), sum-sort_by f l)

sum-replicate : (n : ℕ) → ◌≡◌ {A = ℕ} (sum (replicate n 0)) 0
unfolding sum
sum-replicate zero = refl
sum-replicate (suc n) = omega (arith, sum-replicate n)

-- Comparing with the divided value is comparing with the exact one.
floor_bar : (m d x : ℕ) → 0 < d → (leb (m * d) x ≡ true) ↔ (m ≤ x / d)
floor_bar m d x h =
    let exact = le-div_iff_mul-le {k = d} {x = m} {y = x} h in
    (λ t. exact.1 (ground arith), λ l. let fits = exact.0 l in ground arith)

eligible_bar :
    (twab m pd pn sol : ℕ)
    → 0 < pd
    → ((ltb 0 twab && leb (m * pd * lamports_per_sol) (twab * pn * sol)) ≡ true)
      ↔ (0 < twab × m ≤ twab * pn * sol / (pd * lamports_per_sol))
eligible_bar twab m pd pn sol h =
    let same : m * pd * lamports_per_sol ≡ m * (pd * lamports_per_sol) =
      mul_assoc m pd lamports_per_sol in
    let exact = floor_bar m (pd * lamports_per_sol) (twab * pn * sol) (omega arith) in
    rw same (
      λ t. (ground arith, exact.0 (ground arith)),
      λ both. let fits = exact.1 both.1 in ground arith,
    )

average_bounds : (t n : ℕ) → 0 < n → (t / n * n ≤ t) × (t < suc (t / n) * n)
average_bounds t n h =
    let parts = div-add-mod' t n in
    let small = mod-lt t h in
    let next = suc-mul (t / n) n in (div-mul-le_self t n, omega (arith, parts, small, next))

module _ (keys : Keys) (snapshots : List Snapshot) (exclusions : List ExclusionEntry)
    (price : Rational) (sol_usd_micro min_eligible : ℕ) where
  abbrev explicit : List (String × String)
  explicit = exclusion_map exclusions []

  abbrev ordered : List Snapshot
  ordered = sort_by le_slot snapshots

  holder_row-IsHolder :
      (o : String) (balances : List ℕ)
      → IsPrice price
      → 0 < length snapshots
      → TakesPart keys exclusions o
      → balances ≡ map (λ s. held o s.accounts) ordered
      → IsHolder keys snapshots exclusions price sol_usd_micro min_eligible
          (holder_row (length ordered) price sol_usd_micro min_eligible (o, balances))
  unfolding holder_row twab_of total_held
  holder_row-IsHolder o balances p n part same = record {
    admitted = part;
    balances = same;
    average_low = rw (size, total) (average_bounds _ _ n).0;
    average_high = rw (size, total) (average_bounds _ _ n).1;
    value_low = (average_bounds _ _ unit).0;
    value_high = (average_bounds _ _ unit).1;
    bar =
        eligible_bar (twab_of (length ordered) balances) min_eligible (pos_part price.den)
          (pos_part price.num) sol_usd_micro p.den_positive;
  }
    where
      unit : 0 < pos_part price.den * lamports_per_sol
      unit = let positive = p.den_positive in omega (arith, positive)

      size : length ordered ≡ length snapshots
      size = length-sort_by le_slot snapshots

      total : sum balances ≡ sum (map (λ s. held o s.accounts) snapshots)
      total = ap sum same ∙ sum-sort_by (λ s. held o s.accounts) snapshots

  -- The rows of a scan, in the order of its balances.
  rows-IsHolder :
      (m : List (String × List ℕ))
      → IsPrice price
      → 0 < length snapshots
      → All (λ e. TakesPart keys exclusions e.0 × (e.1 ≡ map (λ s. held e.0 s.accounts) ordered)) m
      → All
          (IsHolder keys snapshots exclusions price sol_usd_micro min_eligible)
          (map (holder_row (length ordered) price sol_usd_micro min_eligible) m)
  rows-IsHolder [] p n h = tt
  rows-IsHolder ((o, balances) ∷ m) p n h =
      (holder_row-IsHolder o balances p n h.0.0 h.0.1, rows-IsHolder m p n h.1)

  owners-rows :
      (m : List (String × List ℕ))
      → map (λ h. h.owner) (map (holder_row (length ordered) price sol_usd_micro min_eligible) m)
        ≡ keys_of m
  unfolding holder_row
  owners-rows [] = refl
  owners-rows ((o, balances) ∷ m) = ap (o ∷◌) (owners-rows m)

  module _ (st : Scan) (scanned : IsScan keys explicit (length ordered) st)
      (all : (o : String)
        → Counts keys explicit (length ordered) o
        → samples_of (length ordered) o st.balances ≡ map (λ s. held o s.accounts) ordered) where
    entries :
        All
          (λ e. TakesPart keys exclusions e.0 × (e.1 ≡ map (λ s. held e.0 s.accounts) ordered))
          st.balances
    entries = both st.balances scanned.admitted (All-lookup st.balances scanned.distinct)
      where
        both :
            (l : List (String × List ℕ))
            → All (λ e. Counts keys explicit (length ordered) e.0) l
            → All (λ e. lookup e.0 st.balances ≡ some e.1) l
            → All
                (λ e.
                  TakesPart keys exclusions e.0 × (e.1 ≡ map (λ s. held e.0 s.accounts) ordered))
                l
        both [] c f = tt
        both ((o, balances) ∷ l) c f = (
          (
            ((lookup-exclusion_map o exclusions [] c.0.0).0, c.0.1, c.0.2),
            sym (ap (samples_from (length ordered)) f.0) ∙ all o c.0,
          ),
          both l c.1 f.1,
        )

    left_out :
        (o : String)
        → TakesPart keys exclusions o
        → 0 < total_held o snapshots
        → has o (keys_of st.balances) ≡ true
    unfolding total_held lookup
    left_out o part h = elim (Bool-cases (has o (keys_of st.balances))) [
      | inl found ↦ found
      | inr missing ↦
          let counts : Counts keys explicit (length ordered) o =
            (exclusion_map-lookup o exclusions [] part.0 refl, part.1, part.2) in
          let none_booked =
            ap (samples_from (length ordered)) (lookup-absent o st.balances missing) in
          let nothing = ap sum (sym (all o counts) ∙ none_booked) in
          absurd (
            omega (
              arith,
              h,
              nothing,
              sum-replicate (length ordered),
              sum-sort_by (λ s. held o s.accounts) snapshots,
            ))
    ]

    abbrev table_of : List ExclusionEntry → HolderTable
    table_of excluded = record {
      holders =
          sort_by (λ a b. le_key keys a.owner b.owner)
            (map (holder_row (length ordered) price sol_usd_micro min_eligible) st.balances);
      excluded = excluded;
      median_pool_price = price;
    }

    scan-IsTable :
        (excluded : List ExclusionEntry)
        → median_rational (map (λ s. s.pool_price) ordered) ≡ ok price
        → 0 < length snapshots
        → IsTable keys snapshots exclusions sol_usd_micro min_eligible (table_of excluded)
    scan-IsTable excluded median n =
        let p = median_rational-IsPrice _ median in
        let rows = map (holder_row (length ordered) price sol_usd_micro min_eligible) st.balances in
        let before = λ (a b : HolderRow). le_key keys a.owner b.owner in
        let named = owners-rows st.balances in
        record {
          median = median_rational-IsLowerMedian _ median;
          rows =
              sort_by-All before
                (IsHolder keys snapshots exclusions price sol_usd_micro min_eligible) rows
                (rows-IsHolder st.balances p n entries);
          once = sort_by-Distinct before (λ h. h.owner) rows (rw named scanned.distinct);
          complete = λ o part h.
              has-sort_by before (λ h. h.owner) o rows ∙ ap (has o) named ∙ left_out o part h;
        }

-- Whatever table `computeHolders` returns is true of the snapshots: each row is of an on-curve wallet
-- that no exclusion names, with what its accounts hold in each snapshot by slot, the whole part of the
-- average, the whole part of its worth at the lower median of the pool's prices and the price of SOL, and the flag
-- that says that the average is above 0 and the worth at the minimum; no wallet has two rows, and none that takes part and holds something is left out.
pub compute_holders-IsTable :
    (keys : Keys) (snapshots : List Snapshot) (exclusions : List ExclusionEntry) (sol_usd_micro : ℤ)
    (min_eligible : ℕ) {table : HolderTable}
    → compute_holders keys snapshots exclusions sol_usd_micro min_eligible ≡ ok table
    → IsTable keys snapshots exclusions (pos_part sol_usd_micro) min_eligible table
unfolding compute_holders
compute_holders-IsTable keys snapshots exclusions sol_usd_micro min_eligible h =
    let (filled, h1) = refuse-eq-ok (length snapshots == 0) _ _ h in
    let (_, h2) = refuse-eq-ok (leb_ℤ sol_usd_micro (pos 0)) _ _ h1 in
    let (_, h3) = refuse-eq-ok (has_repeated_index snapshots) _ _ h2 in
    let by_slot = sort_by le_slot snapshots in
    let start : Scan = record { addresses = []; excluded = []; balances = [] } in
    let (st, scanned, h4) =
      >>=-eq-ok (read_samples keys (exclusion_map exclusions []) (length by_slot) 0 by_slot start) _
        h3 in
    let (price, median, done) =
      >>=-eq-ok (median_rational (map (λ (s : Snapshot). s.pool_price) by_slot)) _ h4 in
    let (_, last) = refuse-eq-ok (has_bad_key keys st.excluded) _ _ done in
    let (end-IsScan, all) = read_samples-held keys _ _ _ refl scanned in
    subst (IsTable keys snapshots exclusions (pos_part sol_usd_micro) min_eligible) (ok-inj last) (
      scan-IsTable keys snapshots exclusions price (pos_part sol_usd_micro) min_eligible st
        end-IsScan all _ median (ground arith))
