-- ===== src/Journal/Tests.antt =====
-- Runs of the journal.
use text.Mathlib.Text.{◌==◌ as str_eq}
use stonkfolio.Prelude.{◌≡◌, refl, false, [], ◌∷◌, some, none, ok, if◌then◌else◌}
use stonkfolio.Prelude.Int.{negsuc}
use stonkfolio.Prelude.Sums.{sum}
use stonkfolio.FeeSplit.{FeeSplitBps, total_bps, split_revenue}
use stonkfolio.FeeSplit.Conservation.{share_list}
use stonkfolio.Ledger.{flywheel, total}
use stonkfolio.Send.{resolve_signature, lamport_change, Rpc, confirmed}
use stonkfolio.Journal.{
  credit_revenue, PendingAction, State, claim, spend, book, settle_pending, settle_action,
}
use stonkfolio.Journal.Charge.{Spent, book_lem, book-claim_loss}
use stonkfolio.Journal.Settle.{settle_pending_idempotent}

abbrev shares : FeeSplitBps
shares = record {
  basket_bps = 7000;
  flywheel_bps = 1000;
  platform_buyback_bps = 1000;
  platform_revenue_bps = 1000;
}

shares_whole : sum (share_list shares) ≡ total_bps
unfolding sum
shares_whole = refl

abbrev fees : PendingAction
fees = record {
  kind = claim;
  label = "pool fees";
  lamports = 900_000;
  signature = "claim";
  last_valid_block_height = 500;
}

abbrev buy : PendingAction
buy = record {
  kind = spend flywheel;
  label = "Stonkfolio flywheel";
  lamports = 40;
  signature = "buy";
  last_valid_block_height = 500;
}

abbrev before : State
before = record {
  ledger = record {
    basket_lamports = 10;
    flywheel_lamports = 50;
    platform_buyback_lamports = 0;
    platform_revenue_lamports = 0;
    operations_lamports = 0;
  };
  pending = fees ∷ buy ∷ [];
  surplus_withdrawn = false;
}

-- The claim has landed and brought 101 lamports, the purchase is still in flight.
abbrev chain : Rpc
chain = record {
  status = λ s.
      if str_eq s "claim"
      then some (record { failed_on_chain = false; confirmation = confirmed })
      else none;
  block_height = 600;
  transaction = λ s n.
      if str_eq s "claim"
      then some (record {
        keys = "pool" ∷ "keeper" ∷ [];
        pre_balances = 900 ∷ 60 ∷ [];
        post_balances = 799 ∷ 161 ∷ [];
        fee = 5;
      })
      else none;
}

abbrev after : State
after = record {
  ledger = record {
    basket_lamports = 81;
    flywheel_lamports = 60;
    platform_buyback_lamports = 10;
    platform_revenue_lamports = 10;
    operations_lamports = 0;
  };
  pending = buy ∷ [];
  surplus_withdrawn = false;
}

settle-before : settle_pending chain "keeper" shares before ≡ ok after
unfolding settle_pending settle_action book split_revenue resolve_signature lamport_change
    credit_revenue
settle-before = refl

settle_pending_idempotent_example : settle_pending chain "keeper" shares after ≡ ok after
settle_pending_idempotent_example =
    settle_pending_idempotent chain "keeper" shares before after settle-before

book_lem_example :
    (s' : State) × (book shares buy (negsuc 54) before ≡ ok s')
    × Spent flywheel 55 before.ledger s'.ledger
    × (s'.pending ≡ before.pending)
book_lem_example = book_lem shares shares_whole buy (negsuc 54) before

book-claim_loss_example :
    (s' : State) × (book shares fees (negsuc 4_999) before ≡ ok s')
    × (total s'.ledger ≡ total before.ledger)
book-claim_loss_example = book-claim_loss shares shares_whole fees 4_999 before refl
