-- ===== src/Journal.antt =====
-- The journal of keeper/coin.ts: SOL movements recorded before they are sent, and booked in the
-- ledger once their transaction is known to have landed.
pub mod Charge
pub mod Settle
pub mod Tests
use text.Mathlib.Text.{◌==◌ as str_eq}
use Prim.Native.String.{String}
use stonkfolio.Prelude.{
  ℕ, ◌+◌, ◌-◌, Bool, true, false, not, ltb, if◌then◌else◌, List, [], ◌∷◌, ◌++◌, filter, any, Option,
  none, some, Result, ok, err, ◌>>=◌,
}
use stonkfolio.Prelude.Int.{ℤ, pos_part, neg_part}
use stonkfolio.FeeSplit.{Error, FeeSplitBps, split_revenue}
use stonkfolio.Ledger.{Ledger, Bucket, basket, debit}
use stonkfolio.Send.{
  Rpc, SignatureOutcome, landed, failed, expired, pending, resolve_signature, LamportChange,
  lamport_change,
}

-- A spend always names its bucket.
pub data Kind : Type 0 where
  claim : Kind
  spend : Bucket → Kind

pub record PendingAction : Type 0 where
  pub kind : Kind
  pub label : String
  pub lamports : ℕ
  pub signature : String
  pub last_valid_block_height : ℕ

-- The fields of `KeeperState` that the journal reads and writes.
pub record State : Type 0 where
  pub ledger : Ledger
  pub pending : List PendingAction
  pub surplus_withdrawn : Bool

unfoldable pub journal : PendingAction → State → State
journal action s = record s { pending = s.pending ++ action ∷ [] }

unfoldable pub is_pending : String → State → Bool
is_pending label s = any (λ p. str_eq p.label label) s.pending

unfoldable pub credit_revenue : FeeSplitBps → ℕ → Ledger → Result Error Ledger
credit_revenue shares lamports l = do
  split ← split_revenue lamports shares
  ok (record l {
    basket_lamports = l.basket_lamports + split.basket_lamports;
    flywheel_lamports = l.flywheel_lamports + split.flywheel_lamports;
    platform_buyback_lamports = l.platform_buyback_lamports + split.platform_buyback_lamports;
    platform_revenue_lamports = l.platform_revenue_lamports + split.platform_revenue_lamports;
  })

unfoldable pub charge_ledger : Bucket → (cost : ℕ) → Ledger → Ledger
unfolding debit
charge_ledger bucket cost l =
    let (after, taken) = debit bucket cost l in
    if ltb taken cost then (debit basket (cost - taken) after).0 else after

-- `-delta > 0n ? -delta : 0n`
abbrev pub cost_of : ℤ → ℕ
cost_of delta = neg_part delta

-- `delta > 0n ? delta : 0n`
abbrev pub received_of : ℤ → ℕ
received_of delta = pos_part delta

-- A landed transaction booked as its measured effect on the keeper's SOL.
book_as : FeeSplitBps → Kind → (label : String) → ℤ → State → Result Error State
book_as shares (spend bucket) label delta s =
    ok (record s { ledger = charge_ledger bucket (cost_of delta) s.ledger })
book_as shares claim label delta s = do
  ledger ← credit_revenue shares (received_of delta) s.ledger
  ok (record s {
    ledger = ledger;
    surplus_withdrawn = if str_eq label "partner surplus" then true else s.surplus_withdrawn;
  })

unfoldable pub book : FeeSplitBps → PendingAction → ℤ → State → Result Error State
unfolding book_as
book shares action delta s = book_as shares action.kind action.label delta s

-- `state.pending.filter((p) => p.signature !== action.signature)`
unfoldable pub drop_action : PendingAction → State → State
drop_action action s = record s {
  pending = filter (λ p. not (str_eq p.signature action.signature)) s.pending;
}

module _ (rpc : Rpc) (keeper : String) (shares : FeeSplitBps) where
  -- The branch of a landed transaction: without its measured effect it is settled on a later tick.
  settle_landed : PendingAction → State × Bool → Option LamportChange → Result Error (State × Bool)
  unfolding drop_action
  settle_landed action (s, changed) none = ok (s, changed)
  settle_landed action (s, changed) (some change) = do
    booked ← book shares action change.delta s
    ok (drop_action action booked, true)

  settle_outcome : PendingAction → State × Bool → SignatureOutcome → Result Error (State × Bool)
  unfolding settle_landed
  settle_outcome action (s, changed) pending = ok (s, changed)
  settle_outcome action s landed =
      settle_landed action s (lamport_change rpc action.signature keeper)
  settle_outcome action (s, changed) failed = ok (drop_action action s, true)
  settle_outcome action (s, changed) expired = ok (drop_action action s, true)

  -- The body of the loop; the flag is `changed`.
  unfoldable pub settle_action : PendingAction → State × Bool → Result Error (State × Bool)
  unfolding settle_outcome
  settle_action action s =
      settle_outcome action s
        (resolve_signature rpc action.signature action.last_valid_block_height)

  unfoldable pub settle_actions : List PendingAction → State × Bool → Result Error (State × Bool)
  unfolding settle_action
  settle_actions [] s = ok s
  settle_actions (action ∷ rest) s = do s' ← settle_action action s; settle_actions rest s'

  -- What is saved; where nothing changed nothing is written, which leaves the same state. A throw
  -- leaves the saved state as it was.
  unfoldable pub settle_pending : State → Result Error State
  unfolding settle_actions
  settle_pending s = do
    (s', changed) ← settle_actions s.pending (s, false)
    ok (if changed then s' else s)
