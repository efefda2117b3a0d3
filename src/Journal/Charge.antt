-- ===== src/Journal/Charge.antt =====
-- How one booked transaction moves the ledger.
use text.Mathlib.Text.{◌==◌ as str_eq}
use Prim.Native.String.{String}
use stonkfolio.Prelude.{ℕ, ◌+◌, ◌-◌, ◌≡◌, min, ◌⊎◌, inl, inr, arith, refl, if◌then◌else◌, true, ok}
use stonkfolio.Prelude.Int.{ℤ, negsuc}
use stonkfolio.FeeSplit.{FeeSplitBps, total_bps}
use stonkfolio.FeeSplit.Conservation.{split_revenue-IsFairSplit, share_list}
use stonkfolio.Prelude.Sums.{sum}
use stonkfolio.Ledger.{
  Ledger, Bucket, basket, flywheel, platform_buyback, platform_revenue, operations, amount_in,
  total,
}
use stonkfolio.Journal.{
  PendingAction, State, Kind, claim, spend, charge_ledger, credit_revenue, book, book_as, cost_of,
  received_of,
}

-- What a cost charged to a bucket can draw on: the bucket, and the basket pot behind it.
abbrev pub available : Bucket → Ledger → ℕ
available basket l = l.basket_lamports
available flywheel l = l.flywheel_lamports + l.basket_lamports
available platform_buyback l = l.platform_buyback_lamports + l.basket_lamports
available platform_revenue l = l.platform_revenue_lamports + l.basket_lamports
available operations l = l.operations_lamports + l.basket_lamports

-- A cost is taken from its bucket first and then from the basket pot, and all of it where the two
-- hold enough.
pub charge_ledger_lem :
    (b : Bucket) (cost : ℕ) (l : Ledger)
    → (total (charge_ledger b cost l) + min cost (available b l) ≡ total l)
      × (amount_in b (charge_ledger b cost l) ≡ amount_in b l - cost)
unfolding charge_ledger total
charge_ledger_lem basket cost l = ground arith
charge_ledger_lem _ cost l = ground arith

-- A cost taken from its bucket first, the rest from the basket, and nothing from any other bucket.
abbrev pub Spent : Bucket → (cost : ℕ) → (before after : Ledger) → Type 0
Spent b cost before after =
    (amount_in b after ≡ amount_in b before - cost)
    × (total after + min cost (available b before) ≡ total before)
    × ((c : Bucket) → (c ≡ b) ⊎ ((c ≡ basket) ⊎ (amount_in c after ≡ amount_in c before)))

untouched :
    (b : Bucket) (cost : ℕ) (l : Ledger) (c : Bucket)
    → (c ≡ b) ⊎ ((c ≡ basket) ⊎ (amount_in c (charge_ledger b cost l) ≡ amount_in c l))
unfolding charge_ledger
untouched basket cost l basket = inl refl
untouched basket cost l flywheel = inr (inr (ground arith))
untouched basket cost l platform_buyback = inr (inr (ground arith))
untouched basket cost l platform_revenue = inr (inr (ground arith))
untouched basket cost l operations = inr (inr (ground arith))
untouched flywheel cost l basket = inr (inl refl)
untouched flywheel cost l flywheel = inl refl
untouched flywheel cost l platform_buyback = inr (inr (ground arith))
untouched flywheel cost l platform_revenue = inr (inr (ground arith))
untouched flywheel cost l operations = inr (inr (ground arith))
untouched platform_buyback cost l basket = inr (inl refl)
untouched platform_buyback cost l flywheel = inr (inr (ground arith))
untouched platform_buyback cost l platform_buyback = inl refl
untouched platform_buyback cost l platform_revenue = inr (inr (ground arith))
untouched platform_buyback cost l operations = inr (inr (ground arith))
untouched platform_revenue cost l basket = inr (inl refl)
untouched platform_revenue cost l flywheel = inr (inr (ground arith))
untouched platform_revenue cost l platform_buyback = inr (inr (ground arith))
untouched platform_revenue cost l platform_revenue = inl refl
untouched platform_revenue cost l operations = inr (inr (ground arith))
untouched operations cost l basket = inr (inl refl)
untouched operations cost l flywheel = inr (inr (ground arith))
untouched operations cost l platform_buyback = inr (inr (ground arith))
untouched operations cost l platform_revenue = inr (inr (ground arith))
untouched operations cost l operations = inl refl

-- What a booked transaction does to the buckets: a claim leaves the operations bucket alone.
abbrev pub Booked : Kind → ℤ → (before after : Ledger) → Type 0
Booked claim delta before after =
    (total after ≡ total before + received_of delta)
    × (after.operations_lamports ≡ before.operations_lamports)
Booked (spend b) delta before after = Spent b (cost_of delta) before after

-- Revenue is credited to the last lamport.
pub credit_revenue_lem :
    (shares : FeeSplitBps) (lamports : ℕ) (l : Ledger)
    → sum (share_list shares) ≡ total_bps
    → (l' : Ledger) × (credit_revenue shares lamports l ≡ ok l')
      × (total l' ≡ total l + lamports)
      × (l'.operations_lamports ≡ l.operations_lamports)
unfolding credit_revenue total
credit_revenue_lem shares lamports l h =
    let (r, e, fair) = split_revenue-IsFairSplit lamports shares h in
    (
      record l {
        basket_lamports = l.basket_lamports + r.basket_lamports;
        flywheel_lamports = l.flywheel_lamports + r.flywheel_lamports;
        platform_buyback_lamports = l.platform_buyback_lamports + r.platform_buyback_lamports;
        platform_revenue_lamports = l.platform_revenue_lamports + r.platform_revenue_lamports;
      },
      rw e,
      omega (arith, fair.conserved),
      refl,
    )

module _ (shares : FeeSplitBps) (whole : sum (share_list shares) ≡ total_bps) where
  Books : Kind → String → ℤ → State → Type 0
  Books k label delta s =
      (s' : State) × (book_as shares k label delta s ≡ ok s')
      × Booked k delta s.ledger s'.ledger
      × (s'.pending ≡ s.pending)

  book_as_lem : (k : Kind) (label : String) (delta : ℤ) (s : State) → Books k label delta s
  unfolding Books book_as
  book_as_lem (spend b) label delta s = (
    record s { ledger = charge_ledger b (cost_of delta) s.ledger },
    refl,
    (
      (charge_ledger_lem b (cost_of delta) s.ledger).1,
      (charge_ledger_lem b (cost_of delta) s.ledger).0,
      untouched b (cost_of delta) s.ledger,
    ),
    refl,
  )
  book_as_lem claim label delta s =
      let (l', e, sums, kept) = credit_revenue_lem shares (received_of delta) s.ledger whole in
      (
        record s {
          ledger = l';
          surplus_withdrawn = if str_eq label "partner surplus" then true else s.surplus_withdrawn;
        },
        rw e,
        (sums, kept),
        refl,
      )

  -- Where the shares make up 10,000 basis points, booking a landed transaction never fails. A spend
  -- takes its measured cost from its bucket first and the rest from the basket, as far as these go,
  -- and nothing from another bucket; a claim adds what was received to the last lamport, and nothing
  -- to the operations bucket; the journal itself is left alone.
  pub book_lem :
      (a : PendingAction) (delta : ℤ) (s : State)
      → (s' : State) × (book shares a delta s ≡ ok s')
        × Booked a.kind delta s.ledger s'.ledger
        × (s'.pending ≡ s.pending)
  unfolding book Books
  book_lem a delta s = book_as_lem a.kind a.label delta s

  -- Where the shares make up 10,000 basis points, booking a claim whose measured effect on the keeper's
  -- SOL is a loss succeeds and leaves the ledger's total as it was.
  pub book-claim_loss :
      (a : PendingAction) (loss : ℕ) (s : State)
      → a.kind ≡ claim
      → (s' : State) × (book shares a (negsuc loss) s ≡ ok s') × (total s'.ledger ≡ total s.ledger)
  unfolding book Books
  book-claim_loss a loss s k =
      let (s', e, sums, _) = book_as_lem claim a.label (negsuc loss) s in
      (s', rw k e, omega (arith, sums.0))
