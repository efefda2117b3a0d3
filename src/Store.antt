-- ===== src/Store.antt =====
-- The state of one coin that keeper/state.ts keeps on disk: the fee buckets, the inventory of basket
-- tokens, the payout rounds and the journal. Amounts, slots and times are whole numbers that are never
-- negative; a mint, a wallet, a hash or a signature is its text.
pub mod Inventory
use Prim.Native.String.{String}
use text.Mathlib.Text.{◌==◌ as str_eq}
use stonkfolio.Prelude.{
  ℕ, zero, ◌+◌, Bool, not, List, [], ◌∷◌, Option, none, some, filter, ◌==◌, if◌then◌else◌,
}
use stonkfolio.Prelude.Int.{ℤ, pos}
use stonkfolio.Prelude.Maps.{lookup, insert}
use stonkfolio.Ledger.{Ledger, empty_ledger}
use stonkfolio.Journal.{PendingAction}

-- `open` is spelled `opened`.
pub data RoundStatus : Type 0 where
  opened closed seeded funded prepared committed active : RoundStatus

pub record CandidateRecord : Type 0 where
  pub index : ℕ
  pub slot : ℕ
  pub sha256 : String

pub data PurchaseStatus : Type 0 where
  pending bought skipped : PurchaseStatus

pub record Funding : Type 0 where
  pub signature : String
  pub last_valid_block_height : ℕ
  pub lamports : ℕ

pub record Sweep : Type 0 where
  pub signature : String
  pub last_valid_block_height : ℕ
  pub tokens : ℕ
  pub lamports_returned : ℕ

pub record PurchaseRecord : Type 0 where
  pub mint : String
  pub token_program : String
  pub status : PurchaseStatus
  pub lamports_spent : ℕ
  pub received : ℕ
  pub signatures : List String
  pub buyer : Option String
  pub attempts : ℕ
  pub last_error : Option String
  pub reason : Option String
  pub swap_wallet_secret_hex : Option String
  pub funding : Option Funding
  pub sweep : Option Sweep
  pub sweep_signatures : List String
  pub output_checks : ℕ

pub data FundStatus : Type 0 where
  pending active abandoned released : FundStatus

pub record FundedAsset : Type 0 where
  pub mint : String
  pub token_program : String
  pub fund_amount : ℕ
  pub allocatable : ℕ
  pub min_leaf_amount : ℕ
  pub status : FundStatus
  pub attempts : ℕ
  pub last_error : Option String
  pub next_attempt_at : Option ℕ

pub record PayoutFailure : Type 0 where
  pub asset_idx : ℕ
  pub leaf_idx : ℕ
  pub recipient : String
  pub attempts : ℕ
  pub permanent : Bool
  pub reason : String
  pub next_attempt_at : Option ℕ

pub record ActiveRound : Type 0 where
  pub round_id : ℕ
  pub status : RoundStatus
  pub secret_hex : String
  pub commitment_hex : String
  pub window_start_slot : ℕ
  pub window_start_ts : ℕ
  pub window_end_slot : Option ℕ
  pub next_snapshot_at : ℕ
  pub candidates : List CandidateRecord
  pub chain_head_hex : String
  pub latest_eligible_count : ℕ
  pub seeded_at : Option ℕ
  pub basket_budget_lamports : Option ℕ
  pub operations_reserve_lamports : Option ℕ
  pub operations_spent_lamports : ℤ
  pub purchases : Option (List PurchaseRecord)
  pub assets : Option (List FundedAsset)
  pub manifest_hash_hex : Option String
  pub assets_root_hex : Option String
  pub commit_signature : Option String
  pub expiry_ts : Option ℕ
  pub failures : List PayoutFailure

pub record ExpiringAsset : Type 0 where
  pub asset_idx : ℕ
  pub mint : String
  pub token_program : String
  pub attempts : ℕ
  pub next_attempt_at : Option ℕ

pub record ExpiringRound : Type 0 where
  pub round_id : ℕ
  pub expiry_ts : ℕ
  pub assets : List ExpiringAsset

pub record InventoryEntry : Type 0 where
  pub token_program : String
  pub amount : ℕ

-- The fields that the rounds and the journal read and write.
pub record KeeperState : Type 0 where
  pub ledger : Ledger
  pub inventory : List (String × InventoryEntry)
  pub round : Option ActiveRound
  pub paying : List ActiveRound
  pub expiring : List ExpiringRound
  pub pending : List PendingAction

-- What `load` returns where there is no file yet.
abbrev pub initial_state : KeeperState
initial_state = record {
  ledger = empty_ledger;
  inventory = [];
  round = none;
  paying = [];
  expiring = [];
  pending = [];
}

-- `state.inventory[mint]?.amount ?? 0n`
unfoldable pub amount_held : String → List (String × InventoryEntry) → ℕ
amount_held mint inventory = elim (lookup mint inventory) [ none ↦ 0 | some e ↦ e.amount ]

unfoldable pub credit_inventory :
    (mint token_program : String) (amount : ℕ) → KeeperState → KeeperState
unfolding insert amount_held
credit_inventory mint token_program amount s = if amount == 0 then s else record s {
  inventory =
      insert mint
        (record { token_program = token_program; amount = amount_held mint s.inventory + amount })
        s.inventory;
}

-- `delete state.inventory[mint]`
unfoldable pub delete_entry :
    String → List (String × InventoryEntry) → List (String × InventoryEntry)
delete_entry mint inventory = filter (λ e. not (str_eq mint e.0)) inventory
