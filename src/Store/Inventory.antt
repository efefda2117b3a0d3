-- ===== src/Store/Inventory.antt =====
-- What the inventory of keeper/state.ts holds of one mint after a credit and after a removal.
use Prim.Native.String.{String}
use text.Mathlib.Text.{◌==◌ as str_eq}
use text.Mathlib.TextEquality.{eq_iff}
use stonkfolio.Prelude.{
  ◌==◌, inl, inr, Bool-cases, refl, ℕ, ◌+◌, ◌≡◌, List, [], ◌∷◌, if◌then◌else◌, arith,
}
use stonkfolio.Prelude.Maps.{lookup, lookup-insert}
use stonkfolio.Store.{InventoryEntry, KeeperState, amount_held, credit_inventory, delete_entry}

-- The amount that counts for the mint asked about.
abbrev pub for_mint : (asked mint : String) (amount : ℕ) → ℕ
for_mint asked mint amount = if str_eq mint asked then amount else 0

-- A credit adds its amount to its mint and to no other.
pub credit_inventory_lem :
    (asked mint program : String) (amount : ℕ) (s : KeeperState)
    → amount_held asked (credit_inventory mint program amount s).inventory
      ≡ amount_held asked s.inventory + for_mint asked mint amount
unfolding credit_inventory amount_held
credit_inventory_lem asked mint program amount s = ground (
  arith,
  lookup-insert mint asked
      (record { token_program = program; amount = amount_held mint s.inventory + amount })
      s.inventory,
  eq_iff mint asked,
)

-- A removed entry holds nothing, and every other entry stays.
pub delete_entry_lem :
    (asked mint : String) (inventory : List (String × InventoryEntry))
    → amount_held asked (delete_entry mint inventory)
      ≡ (if str_eq mint asked then 0 else amount_held asked inventory)
unfolding delete_entry amount_held lookup
delete_entry_lem asked mint [] = ground arith
delete_entry_lem asked mint (e ∷ rest) =
    ground (
      arith,
      delete_entry_lem asked mint rest,
      eq_iff mint asked,
      eq_iff e.0 asked,
      eq_iff mint e.0,
    )

-- A credit leaves the rest of the state alone.
pub credit_inventory-rest :
    (mint program : String) (amount : ℕ) (s : KeeperState)
    → ((credit_inventory mint program amount s).ledger ≡ s.ledger)
      × ((credit_inventory mint program amount s).round ≡ s.round)
      × ((credit_inventory mint program amount s).paying ≡ s.paying)
unfolding credit_inventory
credit_inventory-rest mint program amount s = elim (Bool-cases (amount == 0)) [
  | inl e ↦ rw e (refl, refl, refl)
  | inr e ↦ rw e (refl, refl, refl)
]
