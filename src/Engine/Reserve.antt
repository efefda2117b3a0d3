-- ===== src/Engine/Reserve.antt =====
-- How keeper/round/engine.ts reserves the coin's inventory for a round.
pub mod Kept
pub mod Safe
pub mod Vetted
pub mod Taken
use Prim.Native.String.{String}
use text.Mathlib.Text.{◌==◌ as str_eq}
use stonkfolio.Prelude.{
  ℕ, ◌*◌, List, [], ◌∷◌, ◌++◌, map, filter, take, length, Option, none, some, Bool, true, false,
  not, ◌||◌, ltb, ◌==◌, Result, ok, ◌>>=◌, if◌then◌else◌,
}
use stonkfolio.Prelude.Int.{pos_part}
use stonkfolio.Prelude.Maps.{has, lookup}
use stonkfolio.Prelude.Sort.{sort_by}
use stonkfolio.Round.Policy.{RoundPolicy}
use stonkfolio.Round.Trigger.{ceil_div}
use stonkfolio.Tokens.{MintVetResult, accepted, refused, vet_mint_data}
use stonkfolio.Store.{
  KeeperState, ActiveRound, RoundStatus, PurchaseRecord, PurchaseStatus, FundedAsset, FundStatus,
  InventoryEntry, delete_entry,
}
use stonkfolio.Engine.{Answer, ask, Error, Client, RoundParams, Report, worked, with_round}
use stonkfolio.Engine.Finish.{or_empty}

abbrev pub max_assets_per_round : ℕ
max_assets_per_round = 30

abbrev pub is_bought : PurchaseRecord → Bool
is_bought p = elim p.status [ PurchaseStatus.bought ↦ true | _ ↦ false ]

-- `[...new Set(texts)]`, after those already seen.
unfoldable pub unique : (seen texts : List String) → List String
unfolding has
unique seen [] = []
unique seen (x ∷ xs) = if has x seen then unique seen xs else x ∷ unique (x ∷ seen) xs

-- `bought.find((p) => p.mint === mint)`
unfoldable pub purchase_of : String → List PurchaseRecord → Option PurchaseRecord
purchase_of mint [] = none
purchase_of mint (p ∷ rest) =
    let later = purchase_of mint rest in if str_eq p.mint mint then some p else later

-- For a policy that has passed `validatePolicy`, whose least value is not negative.
unfoldable pub expected_min_leaf_amount : RoundPolicy → Option PurchaseRecord → ℕ
expected_min_leaf_amount policy none = 0
expected_min_leaf_amount policy (some p) =
    if (p.lamports_spent == 0) || (p.received == 0)
    then 0
    else ceil_div (pos_part policy.min_leaf_value_lamports * p.received) p.lamports_spent

-- The mints held, the largest amount first.
held_mints : List (String × InventoryEntry) → List String
held_mints inventory = map (λ e. e.0) (sort_by (λ a b. not (ltb a.1.amount b.1.amount)) inventory)

-- The account of a mint, as the node gives it.
pub record MintInfo : Type 0 where
  pub owner : String
  pub bytes : List ℕ

-- The names of the two token programs, and the accounts of the mints.
pub record Mints : Type 0 where
  pub token_program : String
  pub token_2022_program : String
  pub info : String → Option MintInfo

module _ (client : Client) (policy : RoundPolicy) (params : RoundParams) where
  is_accepted : MintVetResult → Bool
  is_accepted accepted = true
  is_accepted (refused why) = false

  -- `vet.ok`
  unfoldable pub is_vetted : Mints → (mint token_program : String) → Bool
  unfolding vet_mint_data is_accepted
  is_vetted mints mint token_program = elim (mints.info mint) [
    | none ↦ false
    | some info ↦
        if not (str_eq info.owner token_program)
        then false
        else is_accepted (
            vet_mint_data mints.token_program mints.token_2022_program info.bytes info.owner
              (record {
                allow_freeze_authority = false;
                max_transfer_fee_bps = params.max_transfer_fee_bps;
              }))
  ]

  reserved_asset : List PurchaseRecord → (mint : String) → InventoryEntry → (net : ℕ) → FundedAsset
  unfolding expected_min_leaf_amount purchase_of
  reserved_asset bought mint entry net = record {
    mint = mint;
    token_program = entry.token_program;
    fund_amount = entry.amount;
    allocatable = net;
    min_leaf_amount = expected_min_leaf_amount policy (purchase_of mint bought);
    status = FundStatus.pending;
    attempts = 0;
    last_error = none;
    next_attempt_at = none;
  }

  module _ (mints : Mints) (bought : List PurchaseRecord) where
    reserve_entry :
        (mint : String)
        → InventoryEntry
        → List FundedAsset × KeeperState
        → Result Error (List FundedAsset × KeeperState)
    unfolding reserved_asset delete_entry
    reserve_entry mint entry (assets, s) = do
      net ← ask (client.net_after_transfer_fee mint entry.token_program entry.amount)
      ok (
        assets ++ reserved_asset bought mint entry net ∷ [],
        record s { inventory = delete_entry mint s.inventory },
      )

    -- One turn of the loop over the mints.
    unfoldable pub reserve_mint :
        (mint : String)
        → List FundedAsset × KeeperState
        → Result Error (List FundedAsset × KeeperState)
    unfolding is_vetted reserve_entry
    reserve_mint mint (assets, s) = elim (lookup mint s.inventory) [
      | none ↦ ok (assets, s)
      | some entry ↦
          if (entry.amount == 0) || not (is_vetted mints mint entry.token_program)
          then ok (assets, s)
          else reserve_entry mint entry (assets, s)
    ]

    unfoldable pub reserve_mints :
        List String → List FundedAsset × KeeperState → Result Error (List FundedAsset × KeeperState)
    unfolding reserve_mint
    reserve_mints [] (assets, s) = ok (assets, s)
    reserve_mints (mint ∷ rest) (assets, s) =
        if length assets == max_assets_per_round
        then ok (assets, s)
        else do (assets', s') ← reserve_mint mint (assets, s); reserve_mints rest (assets', s')

  -- The mints in the order in which they are reserved: those bought first.
  unfoldable pub mints_of : List PurchaseRecord → List (String × InventoryEntry) → List String
  unfolding held_mints unique
  mints_of bought inventory =
      take 100 (unique [] (map (λ p. p.mint) bought ++ held_mints inventory))

  -- `infos` are the accounts of the mints; where there are none, none are asked for, and the answer is
  -- an empty one.
  unfoldable pub reserve_assets :
      Answer Mints → ActiveRound → KeeperState → Result Error (KeeperState × Report)
  unfolding mints_of reserve_mints
  reserve_assets infos round s = do
    let bought = filter is_bought (or_empty round.purchases)
    mints ← ask infos
    (assets, after) ← reserve_mints mints bought (mints_of bought s.inventory) ([], s)
    ok (
      with_round (record round { assets = some assets; status = RoundStatus.funded }) after,
      worked,
    )
