-- ===== src/Round/Policy.antt =====
-- keeper/round/policy.ts: `validatePolicy`, and the parameters that keeper/round/prepare.ts takes from a
-- policy for the allocation.
pub mod Valid
mod Tests
use Prim.Native.Char.{code}
use Prim.Native.String.{String}
use text.Mathlib.Text.{◌==◌ as str_eq}
use stonkfolio.Prelude.{
  ℕ, zero, suc, Bool, true, false, ◌&&◌, ◌||◌, not, List, [], ◌∷◌, max, Option, none, some, Result,
  ok, err, ◌>>=◌, ◌>>◌, refuse, require, ltb, leb, ◌==◌, if◌then◌else◌,
}
use stonkfolio.Prelude.Int.{ℤ, pos, negsuc, pos_part, Number, whole, broken, ltb_ℤ}
use stonkfolio.Prelude.Maps.{has}
use stonkfolio.Round.Types.{ExclusionEntry, AllocationParams}

pub record RoundPolicy : Type 0 where
  pub version : Number
  pub samples_per_round : Number
  pub min_window_secs : Number
  pub seed_slot_offset : Number
  pub min_eligible_usd_micro : ℤ
  pub max_leaves_per_asset : Number
  pub max_min_leaf_passes : Number
  pub min_leaf_value_lamports : ℤ
  pub auto_push_min_rent_multiple : Number
  pub exclude_off_curve_owners : Bool
  pub static_exclusions : List ExclusionEntry
  pub price_feed_account : String
  pub price_feed_id_hex : String
  pub max_price_age_secs : Number
  pub max_price_conf_bps : Number
  pub min_expiry_secs : Number
  pub round_expiry_secs : Number

abbrev pub u32_max : ℕ
u32_max = 4_294_967_295

abbrev pub ten_years_secs : ℕ
ten_years_secs = 315_360_000

pub data Error : Type 0 where
  unsupported_version off_curve_owners_included not_hex : Error
  not_in_range : (field : String) (low high : ℕ) → Error
  negative : (field : String) → Error
  no_key : (value : String) → Error
  no_reason : (owner : String) → Error
  listed_twice : (owner : String) → Error

abbrev pub in_range : (low high : ℕ) → Number → Bool
in_range low high (whole (pos n)) = leb low n && leb n high
in_range low high (whole (negsuc n)) = false
in_range low high broken = false

unfoldable pub require_int : Number → (low high : ℕ) → (field : String) → Result Error Unit
require_int value low high field = require (in_range low high value) (not_in_range field low high)

abbrev pub number_part : Number → ℕ
number_part (whole n) = pos_part n
number_part broken = 0

abbrev pub codes_of : String → List ℕ
codes_of String.[] = []
codes_of (String.◌∷◌ c s) = code c ∷ codes_of s

-- `[0-9a-f]`
abbrev pub is_hex_digit : ℕ → Bool
is_hex_digit c = (leb 48 c && leb c 57) || (leb 97 c && leb c 102)

-- `^[0-9a-f]{n}$`
unfoldable pub is_hex : (n : ℕ) → List ℕ → Bool
is_hex zero [] = true
is_hex zero (c ∷ cs) = false
is_hex (suc n) [] = false
is_hex (suc n) (c ∷ cs) = is_hex_digit c && is_hex n cs

abbrev pub is_text : Option String → String → Bool
is_text none value = false
is_text (some canonical) value = str_eq canonical value

-- The text of `new PublicKey(value).toBase58()` of @solana/web3.js, `none` where it throws.
module _ (canonical : String → Option String) where
  unfoldable pub require_pubkey_string : String → Result Error Unit
  require_pubkey_string value = require (is_text (canonical value) value) (no_key value)

  -- The loop over the exclusions, with the owners seen so far.
  unfoldable pub check_exclusions : List String → List ExclusionEntry → Result Error Unit
  unfolding require_pubkey_string has
  check_exclusions owners [] = ok tt
  check_exclusions owners (e ∷ rest) = do
    require_pubkey_string e.owner
    refuse (str_eq e.reason "") (no_reason e.owner)
    refuse (has e.owner owners) (listed_twice e.owner)
    check_exclusions (e.owner ∷ owners) rest

  unfoldable pub validate_policy : RoundPolicy → Result Error Unit
  unfolding require_int is_hex check_exclusions
  validate_policy p = do
    require (in_range 1 1 p.version) unsupported_version
    require_int p.samples_per_round 1 10_000 "samplesPerRound"
    require_int p.min_window_secs 0 u32_max "minWindowSecs"
    require_int p.seed_slot_offset 1 256 "seedSlotOffset"
    require_int p.max_leaves_per_asset 1 65_536 "maxLeavesPerAsset"
    require_int p.max_min_leaf_passes 0 100 "maxMinLeafPasses"
    require_int p.auto_push_min_rent_multiple 0 1_000 "autoPushMinRentMultiple"
    require_int p.max_price_age_secs 1 u32_max "maxPriceAgeSecs"
    require_int p.max_price_conf_bps 1 10_000 "maxPriceConfBps"
    require_int p.min_expiry_secs 0 ten_years_secs "minExpirySecs"
    require_int p.round_expiry_secs (max 1 (number_part p.min_expiry_secs)) ten_years_secs
        "roundExpirySecs"
    refuse (ltb_ℤ p.min_eligible_usd_micro (pos 0)) (negative "minEligibleUsdMicro")
    refuse (ltb_ℤ p.min_leaf_value_lamports (pos 0)) (negative "minLeafValueLamports")
    require p.exclude_off_curve_owners off_curve_owners_included
    require (is_hex 64 (codes_of p.price_feed_id_hex)) not_hex
    require_pubkey_string p.price_feed_account
    check_exclusions [] p.static_exclusions

-- The parameters of a round's allocation.
abbrev pub params_of : RoundPolicy → AllocationParams
params_of p = record {
  min_eligible_usd_micro = p.min_eligible_usd_micro;
  max_leaves_per_asset = p.max_leaves_per_asset;
  max_min_leaf_passes = p.max_min_leaf_passes;
}
