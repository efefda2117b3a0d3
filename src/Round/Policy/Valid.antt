-- ===== src/Round/Policy/Valid.antt =====
-- What a policy that validates is.
use Prim.Native.String.{String}
use text.Mathlib.Text.{◌==◌ as str_eq}
use text.Mathlib.TextEquality.{eq_iff}
use stonkfolio.Prelude.{
  ℕ, ◌≤◌, ◌≡◌, refl, true, false, List, [], ◌∷◌, map, max, All, Option, ok, arith, require-eq-ok,
  refuse-eq-ok, >>=-eq-ok,
}
use stonkfolio.Prelude.Int.{pos, negsuc, pos_part, Number, whole, broken, ltb_ℤ}
use stonkfolio.Prelude.Maps.{has}
use stonkfolio.Prelude.Picked.{Distinct}
use stonkfolio.Round.Types.{ExclusionEntry}
use stonkfolio.Round.Asset.{Limits}
use stonkfolio.Round.Allocate.{validate_params}
use stonkfolio.Round.Policy.{
  RoundPolicy, in_range, number_part, require_int, require_pubkey_string, check_exclusions,
  validate_policy, params_of, ten_years_secs, u32_max, is_hex, codes_of,
}

pub record IsPolicy (p : RoundPolicy) : Type 0 where
  -- The allocation accepts its parameters.
  pub limits : Limits
  pub accepted : validate_params (params_of p) ≡ ok limits
  -- At least one sample is taken, and a round can expire no sooner than its distributor allows.
  pub samples : 1 ≤ number_part p.samples_per_round
  pub expiry : number_part p.min_expiry_secs ≤ number_part p.round_expiry_secs
  pub expires : 1 ≤ number_part p.round_expiry_secs
  -- No wallet is excluded twice.
  pub once : Distinct (map (λ e. e.owner) p.static_exclusions)

in_range-le : (low high : ℕ) (v : Number) → in_range low high v ≡ true → low ≤ number_part v
in_range-le low high (whole (pos n)) h = ground arith
in_range-le low high (whole (negsuc n)) h = cc
in_range-le low high broken h = cc

params_accepted :
    (p : RoundPolicy)
    → in_range 1 65_536 p.max_leaves_per_asset ≡ true
    → in_range 0 100 p.max_min_leaf_passes ≡ true
    → ltb_ℤ p.min_eligible_usd_micro (pos 0) ≡ false
    → validate_params (params_of p)
      ≡ ok (record {
        min_eligible = pos_part p.min_eligible_usd_micro;
        max_leaves = number_part p.max_leaves_per_asset;
        passes = number_part p.max_min_leaf_passes;
      })
unfolding validate_params
params_accepted p leaves passes eligible = ground arith

module _ (canonical : String → Option String) where
  check_exclusions-Distinct :
      (owners : List String) (l : List ExclusionEntry)
      → check_exclusions canonical owners l ≡ ok tt
      → Distinct (map (λ e. e.owner) l) × All (λ e. has e.owner owners ≡ false) l
  unfolding check_exclusions Distinct has
  check_exclusions-Distinct owners [] h = (tt, tt)
  check_exclusions-Distinct owners (e ∷ rest) h =
      let (_, _, h1) = >>=-eq-ok (require_pubkey_string canonical e.owner) _ h in
      let (_, h2) = refuse-eq-ok (str_eq e.reason "") _ _ h1 in
      let (fresh, h3) = refuse-eq-ok (has e.owner owners) _ _ h2 in
      let (later, apart) = check_exclusions-Distinct (e.owner ∷ owners) rest h3 in
      ((absent e.owner rest (firsts rest apart), later), (fresh, seconds rest apart))
    where
      firsts :
          (l : List ExclusionEntry)
          → All (λ f. has f.owner (e.owner ∷ owners) ≡ false) l
          → All (λ f. str_eq e.owner f.owner ≡ false) l
      firsts [] a = tt
      firsts (f ∷ l) a = (ground arith, firsts l a.1)

      seconds :
          (l : List ExclusionEntry)
          → All (λ f. has f.owner (e.owner ∷ owners) ≡ false) l
          → All (λ f. has f.owner owners ≡ false) l
      seconds [] a = tt
      seconds (f ∷ l) a = (ground arith, seconds l a.1)

      absent :
          (o : String) (l : List ExclusionEntry)
          → All (λ f. str_eq o f.owner ≡ false) l
          → has o (map (λ f. f.owner) l) ≡ false
      absent o [] a = refl
      absent o (f ∷ l) a = ground (arith, absent o l a.1, eq_iff o f.owner, eq_iff f.owner o)

  -- A policy that `validatePolicy` lets through gives the allocation parameters that it accepts, takes a
  -- sample at least, lets a round last at least one second and the least expiry, and excludes no wallet twice.
  pub validate_policy-IsPolicy :
      (p : RoundPolicy) → validate_policy canonical p ≡ ok tt → IsPolicy p
  unfolding validate_policy require_int
  validate_policy-IsPolicy p h0 =
      let (_, h1) = require-eq-ok (in_range 1 1 p.version) _ _ h0 in
      let (samples, h2) = require-eq-ok (in_range 1 10_000 p.samples_per_round) _ _ h1 in
      let (_, h3) = require-eq-ok (in_range 0 u32_max p.min_window_secs) _ _ h2 in
      let (_, h4) = require-eq-ok (in_range 1 256 p.seed_slot_offset) _ _ h3 in
      let (leaves, h5) = require-eq-ok (in_range 1 65_536 p.max_leaves_per_asset) _ _ h4 in
      let (passes, h6) = require-eq-ok (in_range 0 100 p.max_min_leaf_passes) _ _ h5 in
      let (_, h7) = require-eq-ok (in_range 0 1_000 p.auto_push_min_rent_multiple) _ _ h6 in
      let (_, h8) = require-eq-ok (in_range 1 u32_max p.max_price_age_secs) _ _ h7 in
      let (_, h9) = require-eq-ok (in_range 1 10_000 p.max_price_conf_bps) _ _ h8 in
      let (_, h10) = require-eq-ok (in_range 0 ten_years_secs p.min_expiry_secs) _ _ h9 in
      let (expiry, h11) =
        require-eq-ok
          (in_range (max 1 (number_part p.min_expiry_secs)) ten_years_secs p.round_expiry_secs) _ _
          h10 in
      let (eligible, h12) = refuse-eq-ok (ltb_ℤ p.min_eligible_usd_micro (pos 0)) _ _ h11 in
      let (_, h13) = refuse-eq-ok (ltb_ℤ p.min_leaf_value_lamports (pos 0)) _ _ h12 in
      let (_, h14) = require-eq-ok p.exclude_off_curve_owners _ _ h13 in
      let (_, h15) = require-eq-ok (is_hex 64 (codes_of p.price_feed_id_hex)) _ _ h14 in
      let (_, _, h16) = >>=-eq-ok (require_pubkey_string canonical p.price_feed_account) _ h15 in
      let least = in_range-le _ _ p.round_expiry_secs expiry in
      record {
        limits = _;
        accepted = params_accepted p leaves passes eligible;
        samples = in_range-le 1 10_000 p.samples_per_round samples;
        expiry = omega (arith, least);
        expires = omega (arith, least);
        once = (check_exclusions-Distinct [] p.static_exclusions h16).0;
      }
