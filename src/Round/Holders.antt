-- ===== src/Round/Holders.antt =====
-- `computeHolders` of keeper/round/allocate.ts: balances by wallet and sample, and what they are
-- worth. Where the code has tested a price, `pos_part` reads the tested value.
pub mod Booking
pub mod Snapshots
pub mod Exclusions
pub mod Table
pub mod Total
use Prim.Native.String.{String}
use stonkfolio.Prelude.{
  ℕ, zero, suc, ◌+◌, ◌*◌, ◌/◌, Bool, true, false, ◌&&◌, ◌||◌, not, List, [], ◌∷◌, map, length,
  get_or, set, replicate, any, Option, some, none, Result, ok, err, ◌>>=◌, ◌>>◌, refuse, ltb, leb,
  ◌==◌, if◌then◌else◌,
}
use stonkfolio.Prelude.Int.{ℤ, pos, pos_part, natural?, leb_ℤ}
use stonkfolio.Prelude.Sort.{sort_by}
use stonkfolio.Prelude.Sums.{sum}
use stonkfolio.Prelude.Maps.{has, lookup, insert}
use stonkfolio.Round.Types.{
  Rational, TokenAccountRow, Snapshot, ExclusionEntry, HolderRow, Error, no_snapshot,
  sol_usd_not_positive, duplicate_snapshot_index, negative_balance, listed_twice, invalid_key, Keys,
}
use stonkfolio.Round.Median.{median_rational}

abbrev pub lamports_per_sol : ℕ
lamports_per_sol = 1_000_000_000

-- `Buffer.compare(a, b) <= 0`
unfoldable pub le_bytes : List ℕ → List ℕ → Bool
le_bytes [] bs = true
le_bytes (a ∷ as') [] = false
le_bytes (a ∷ as') (b ∷ bs) = ltb a b || (a == b && le_bytes as' bs)

-- `order.compare(a, b) <= 0`
abbrev pub le_key : Keys → String → String → Bool
le_key keys a b = le_bytes (keys.buffer a) (keys.buffer b)

-- `a.slot - b.slot || a.index - b.index`, at most 0
abbrev pub le_slot : Snapshot → Snapshot → Bool
le_slot a b = ltb a.slot b.slot || (a.slot == b.slot && leb a.index b.index)

unfoldable pub has_repeated_index : List Snapshot → Bool
has_repeated_index [] = false
has_repeated_index (s ∷ rest) = any (λ r. r.index == s.index) rest || has_repeated_index rest

-- `new Map(exclusions.map((e) => [e.owner, e.reason]))`, from the entries on.
unfoldable pub exclusion_map : List ExclusionEntry → List (String × String) → List (String × String)
exclusion_map [] m = m
exclusion_map (e ∷ rest) m = exclusion_map rest (insert e.owner e.reason m)

pub record Scan : Type 0 where
  pub addresses : List String
  pub excluded : List (String × String)
  pub balances : List (String × List ℕ)

abbrev off_curve_reason : String
off_curve_reason = "program-owned (off-curve) wallet"

-- `perSample[sample] += amount`
abbrev pub add_at : List ℕ → ℕ → ℕ → List ℕ
add_at xs i amount = set xs i (get_or xs i 0 + amount)

-- The wallet's balances so far, all 0 at its first row.
abbrev pub samples_from : ℕ → Option (List ℕ) → List ℕ
samples_from count (some per_sample) = per_sample
samples_from count none = replicate count 0

abbrev pub samples_of : ℕ → String → List (String × List ℕ) → List ℕ
samples_of count owner balances = samples_from count (lookup owner balances)

abbrev pub mark_excluded : (owner reason : String) → Scan → Scan
mark_excluded owner reason st = record st { excluded = insert owner reason st.excluded }

abbrev pub book_row : (count sample : ℕ) (owner : String) (amount : ℕ) → Scan → Scan
book_row count sample owner amount st = record st {
  balances = insert owner (add_at (samples_of count owner st.balances) sample amount) st.balances;
}

-- The row's wallet marked as excluded, for the given reason or as off the curve, or its amount booked.
unfoldable pub place_as :
    (count sample : ℕ) (owner : String) (amount : ℕ)
    → (reason : Option String) (on_curve : Bool) → Scan
    → Scan
place_as count sample owner amount (some reason) on_curve st = mark_excluded owner reason st
place_as count sample owner amount none false st = mark_excluded owner off_curve_reason st
place_as count sample owner amount none true st = book_row count sample owner amount st

abbrev pub is_new_key : Option String → Bool
is_new_key none = true
is_new_key (some reason) = false

module _ (keys : Keys) (explicit : List (String × String)) (count : ℕ) where
  unfoldable pub place_row : (sample : ℕ) (owner : String) (amount : ℕ) → Scan → Scan
  unfolding place_as
  place_row sample owner amount st =
      place_as count sample owner amount (lookup owner explicit) (keys.is_on_curve owner) st

  -- The owner's key is made unless an exclusion names the owner.
  unfoldable pub read_row : (sample index : ℕ) → TokenAccountRow → Scan → Result Error Scan
  unfolding place_row
  read_row sample index row st = elim (natural? row.amount) [
    | none ↦ err (negative_balance row.address)
    | some amount ↦ do
      refuse (has row.address st.addresses) (listed_twice row.address index)
      refuse (is_new_key (lookup row.owner explicit) && not (keys.is_key row.owner)) invalid_key
      ok (place_row sample row.owner amount (record st { addresses = row.address ∷ st.addresses }))
  ]

  unfoldable pub read_rows : (sample index : ℕ) → List TokenAccountRow → Scan → Result Error Scan
  unfolding read_row
  read_rows sample index [] st = ok st
  read_rows sample index (row ∷ rows) st = do
    st' ← read_row sample index row st
    read_rows sample index rows st'

  -- The samples from the given position on; each starts with no address seen.
  unfoldable pub read_samples : (sample : ℕ) → List Snapshot → Scan → Result Error Scan
  unfolding read_rows
  read_samples sample [] st = ok st
  read_samples sample (snapshot ∷ rest) st = do
    st' ← read_rows sample snapshot.index snapshot.accounts (record st { addresses = [] })
    read_samples (suc sample) rest st'

pub record HolderTable : Type 0 where
  pub holders : List HolderRow
  pub excluded : List ExclusionEntry
  pub median_pool_price : Rational

-- floor(sum of sample balances / sample count)
unfoldable pub twab_of : (count : ℕ) → List ℕ → ℕ
unfolding sum
twab_of count balances = sum balances / count

unfoldable pub holder_row :
    (count : ℕ) (price : Rational) (sol_usd_micro min_eligible : ℕ) → String × List ℕ → HolderRow
unfolding twab_of
holder_row count price sol_usd_micro min_eligible (owner, balances) =
    let twab = twab_of count balances in
    let scaled = twab * pos_part price.num * sol_usd_micro in
    let den = pos_part price.den * lamports_per_sol in
    let threshold = min_eligible * pos_part price.den * lamports_per_sol in
    record {
      owner = owner;
      sample_balances = balances;
      twab = twab;
      value_usd_micro = scaled / den;
      eligible = ltb 0 twab && leb threshold scaled;
    }

-- Sorting makes the key of every wallet once there are two to compare; those in the holder table have
-- been made before.
abbrev pub has_bad_key : Keys → List (String × String) → Bool
has_bad_key keys excluded = ltb 1 (length excluded) && any (λ e. not (keys.is_key e.0)) excluded

abbrev exclusion_entry : String × String → ExclusionEntry
exclusion_entry (owner, reason) = record { owner = owner; reason = reason }

unfoldable pub compute_holders :
    Keys
    → List Snapshot
    → List ExclusionEntry
    → (sol_usd_micro : ℤ) (min_eligible : ℕ) → Result Error HolderTable
unfolding has_repeated_index exclusion_map read_samples holder_row sort_by le_bytes
compute_holders keys snapshots exclusions sol_usd_micro min_eligible = do
  refuse (length snapshots == 0) no_snapshot
  refuse (leb_ℤ sol_usd_micro (pos 0)) sol_usd_not_positive
  refuse (has_repeated_index snapshots) duplicate_snapshot_index
  let ordered = sort_by le_slot snapshots
  let count = length ordered
  scan ←
      read_samples keys (exclusion_map exclusions []) count 0 ordered
        (record { addresses = []; excluded = []; balances = [] })
  price ← median_rational (map (λ s. s.pool_price) ordered)
  refuse (has_bad_key keys scan.excluded) invalid_key
  ok (record {
    holders =
        sort_by (λ a b. le_key keys a.owner b.owner)
          (map (holder_row count price (pos_part sol_usd_micro) min_eligible) scan.balances);
    excluded = sort_by (λ a b. le_key keys a.owner b.owner) (map exclusion_entry scan.excluded);
    median_pool_price = price;
  })
