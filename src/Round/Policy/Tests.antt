-- ===== src/Round/Policy/Tests.antt =====
-- A policy that validates.
use stonkfolio.Prelude.{ℕ, true, [], ◌∷◌, refl, some}
use stonkfolio.Prelude.Maps.{has}
use stonkfolio.Prelude.Int.{pos, whole, Number}
use stonkfolio.Round.Policy.{RoundPolicy, validate_policy}
use stonkfolio.Round.Policy.Valid.{IsPolicy, validate_policy-IsPolicy}

abbrev number : ℕ → Number
number n = whole (pos n)

abbrev policy : RoundPolicy
policy = record {
  version = number 1;
  samples_per_round = number 24;
  min_window_secs = number 86_400;
  seed_slot_offset = number 16;
  min_eligible_usd_micro = pos 50_000_000;
  max_leaves_per_asset = number 5_000;
  max_min_leaf_passes = number 5;
  min_leaf_value_lamports = pos 10_000;
  auto_push_min_rent_multiple = number 2;
  exclude_off_curve_owners = true;
  static_exclusions =
      record { owner = "team"; reason = "team wallet" }
      ∷ record { owner = "burn"; reason = "burn wallet" }
      ∷ [];
  price_feed_account = "feed";
  price_feed_id_hex = "00112233445566778899aabbccddeeff00112233445566778899aabbccddeeff";
  max_price_age_secs = number 60;
  max_price_conf_bps = number 100;
  min_expiry_secs = number 604_800;
  round_expiry_secs = number 2_592_000;
}

validate_policy-IsPolicy_example : IsPolicy policy
unfolding validate_policy has
validate_policy-IsPolicy_example = validate_policy-IsPolicy (λ value. some value) policy refl
