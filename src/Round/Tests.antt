-- ===== src/Round/Tests.antt =====
-- A round of two wallets and two assets, and the theorems of the allocation at it.
use Prim.Native.String.{String}
use text.Mathlib.Text.{◌==◌ as str_eq}
use stonkfolio.Prelude.{
  ℕ, ◌<◌, ◌≤◌, ◌≡◌, refl, true, not, List, [], ◌∷◌, ok, if◌then◌else◌, arith, length, get_or, ◌+◌,
  inl,
}
use stonkfolio.Prelude.Int.{pos, whole, ◌*ℤ◌}
use stonkfolio.Prelude.Maps.{has, lookup, insert}
use stonkfolio.Round.Median.{median_rational}
use stonkfolio.Prelude.Sums.{sum}
use stonkfolio.Prelude.Picked.{Distinct}
use stonkfolio.Round.Types.{
  Rational, TokenAccountRow, Snapshot, ExclusionEntry, AssetInput, AllocationInput, HolderRow,
  AssetShare, AllocationResult, Keys,
}
use stonkfolio.Round.Holders.{HolderTable, compute_holders}
use stonkfolio.Round.Holders.Table.{IsTable, compute_holders-IsTable}
use stonkfolio.Round.Remainder.{Weighted, weights, largest_remainder}
use stonkfolio.Round.Remainder.Exact.{largest_remainder-exact, largest_remainder-quota, quota}
use stonkfolio.Round.Remainder.Fair.{largest_remainder-monotone}
use stonkfolio.Round.Asset.{Limits, shared, allocate_asset}
use stonkfolio.Round.Asset.Passes.{IsHeavy}
use stonkfolio.Round.Asset.Shares.{IsExactShare, allocate_asset-IsExactShare}
use stonkfolio.Round.Asset.Served.{allocate_asset-served}
use stonkfolio.Round.Allocate.{allocate, validate_params, has_repeat}
use stonkfolio.Round.Allocate.Total.{IsInput, allocate-returns}
use stonkfolio.Round.Holders.{has_repeated_index}
use stonkfolio.Round.Median.{is_bad_price}
use stonkfolio.Round.Trees.{RoundTrees, build_round_trees}
use stonkfolio.Round.Trees.Built.{allocate-build_round_trees}
use stonkfolio.Round.Allocate.Payout.{IsRound, allocate-IsRound}

-- Three wallets, of which the vault is off the curve.
abbrev keys : Keys
keys = record {
  is_key = λ o. not (str_eq o "");
  buffer = λ o. if str_eq o "ada" then 1 ∷ [] else if str_eq o "bob" then 2 ∷ [] else 3 ∷ [];
  is_on_curve = λ o. not (str_eq o "vault");
}

abbrev price : Rational
price = record { num = pos 2; den = pos 1 }

abbrev row : (address owner : String) → ℕ → TokenAccountRow
row address owner amount = record { address = address; owner = owner; amount = pos amount }

abbrev snapshots : List Snapshot
snapshots =
    record {
      index = 1;
      slot = 20;
      timestamp = 1;
      pool_price = price;
      accounts = row "a1" "ada" 700 ∷ row "b1" "bob" 200 ∷ row "v1" "vault" 900 ∷ [];
    }
    ∷ record {
      index = 0;
      slot = 10;
      timestamp = 0;
      pool_price = price;
      accounts = row "b1" "bob" 200 ∷ row "a1" "ada" 100 ∷ row "a2" "ada" 1 ∷ [];
    }
    ∷ []

abbrev asset : String → (allocatable minimum : ℕ) → AssetInput
asset mint allocatable minimum = record {
  mint = mint;
  token_program = "token";
  allocatable = pos allocatable;
  min_leaf_amount = pos minimum;
}

abbrev input : AllocationInput
input = record {
  snapshots = snapshots;
  exclusions = record { owner = "team"; reason = "team wallet" } ∷ [];
  assets = asset "gold" 11 1 ∷ asset "dust" 0 0 ∷ asset "iron" 7 1 ∷ [];
  sol_usd_micro = pos 150_000_000;
  params = record {
    min_eligible_usd_micro = pos 1;
    max_leaves_per_asset = whole (pos 100);
    max_min_leaf_passes = whole (pos 3);
  };
}

abbrev holders : List HolderRow
holders =
    record {
      owner = "ada";
      sample_balances = 101 ∷ 700 ∷ [];
      twab = 400;
      value_usd_micro = 120;
      eligible = true;
    }
    ∷ record {
      owner = "bob";
      sample_balances = 200 ∷ 200 ∷ [];
      twab = 200;
      value_usd_micro = 60;
      eligible = true;
    }
    ∷ []

abbrev left_out : List ExclusionEntry
left_out = record { owner = "vault"; reason = "program-owned (off-curve) wallet" } ∷ []

abbrev paid : (mint : String) (total ada bob : ℕ) → AssetShare
paid mint total ada bob = record {
  mint = mint;
  token_program = "token";
  allocatable = total;
  allocated = total;
  dust = 0;
  dropped_below_min = 0;
  truncated = 0;
  leaves =
      record { leaf_idx = 0; recipient = "ada"; amount = ada }
      ∷ record { leaf_idx = 1; recipient = "bob"; amount = bob }
      ∷ [];
}

abbrev round_result : AllocationResult
round_result = record {
  median_pool_price = price;
  holders = holders;
  excluded = left_out;
  assets =
      record { asset_idx = 0; share = paid "gold" 11 7 4 }
      ∷ record { asset_idx = 1; share = paid "iron" 7 5 2 }
      ∷ [];
  skipped = record { mint = "dust"; reason = "nothing to allocate" } ∷ [];
}

allocate-IsRound_example : IsRound keys input round_result
unfolding allocate lookup insert median_rational ◌*ℤ◌
allocate-IsRound_example = allocate-IsRound keys input refl

abbrev table : HolderTable
table = record { holders = holders; excluded = left_out; median_pool_price = price }

compute_holders-IsTable_example : IsTable keys snapshots [] 150_000_000 1 table
unfolding compute_holders has lookup insert median_rational ◌*ℤ◌
compute_holders-IsTable_example = compute_holders-IsTable keys snapshots [] (pos 150_000_000) 1 refl

abbrev pool : List Weighted
pool =
    record { owner = "ada"; weight = 400 }
    ∷ record { owner = "bob"; weight = 200 }
    ∷ record { owner = "eve"; weight = 100 }
    ∷ []

heavy : IsHeavy pool
heavy = (omega arith, (omega arith, (omega arith, tt)))

abbrev limits : Limits
limits = record { min_eligible = 1; max_leaves = 2; passes = 3 }

abbrev cut_off : AssetShare
cut_off = record (paid "gold" 11 7 4) { truncated = 1 }

-- Eve is cut off by the limit on leaves.
allocate_asset-IsExactShare_example : IsExactShare limits pool (asset "gold" 11 1) cut_off
unfolding allocate_asset Distinct
allocate_asset-IsExactShare_example =
    allocate_asset-IsExactShare keys limits pool heavy (asset "gold" 11 1) cut_off
      (refl, (refl, (refl, tt))) refl

allocate_asset-served_example :
    (share : AssetShare) × (allocate_asset keys limits pool (asset "gold" 11 4) ≡ ok (shared share))
allocate_asset-served_example =
    allocate_asset-served keys limits pool heavy (omega arith) (omega arith) (asset "gold" 11 4) 11
      4 refl refl (omega arith)

pool-filled : 0 < sum (weights pool)
unfolding sum
pool-filled = omega arith

largest_remainder-exact_example :
    (sum (largest_remainder 11 pool) ≡ 11) × (length (largest_remainder 11 pool) ≡ length pool)
largest_remainder-exact_example = largest_remainder-exact 11 pool pool-filled

largest_remainder-quota_example :
    (quota 11 pool 1 ≤ get_or (largest_remainder 11 pool) 1 0)
    × (get_or (largest_remainder 11 pool) 1 0 ≤ quota 11 pool 1 + 1)
largest_remainder-quota_example = largest_remainder-quota 11 pool pool-filled 1 (omega arith)

largest_remainder-monotone_example :
    get_or (largest_remainder 11 pool) 1 0 ≤ get_or (largest_remainder 11 pool) 0 0
largest_remainder-monotone_example =
    largest_remainder-monotone 11 pool pool-filled 0 1 (omega arith) (omega arith)
      (inl (omega arith))

allocate-build_round_trees_example :
    (trees : RoundTrees) × (build_round_trees keys
        (λ bytes. bytes)
        (8 ∷ [])
        (9 ∷ [])
        1
        round_result.assets
      ≡ ok trees)
    × (length trees.assets ≡ length round_result.assets)
unfolding allocate lookup insert median_rational ◌*ℤ◌
allocate-build_round_trees_example =
    allocate-build_round_trees keys input (λ bytes. bytes) (8 ∷ []) (9 ∷ []) 1
      {result = round_result} refl (omega arith) (omega arith, (omega arith, tt))
      ((refl, refl), ((refl, refl), tt))

abbrev input_limits : Limits
input_limits = record { min_eligible = 1; max_leaves = 100; passes = 3 }

input-IsInput : IsInput keys input input_limits
unfolding validate_params has_repeat has_repeated_index Distinct has is_bad_price
input-IsInput = record {
  params = refl;
  few = omega arith;
  mints = refl;
  sampled = omega arith;
  sol = refl;
  sol_positive = omega arith;
  indices = refl;
  snapshots = (
    record {
      amounts = (refl, (refl, (refl, tt)));
      owners = (refl, (refl, (refl, tt)));
      once = (refl, (refl, (refl, tt)));
      price = refl;
    },
    (
      record {
        amounts = (refl, (refl, (refl, tt)));
        owners = (refl, (refl, (refl, tt)));
        once = (refl, (refl, (refl, tt)));
        price = refl;
      },
      tt,
    ),
  );
  amounts = ((refl, refl), ((refl, refl), ((refl, refl), tt)));
}

allocate-returns_example : (result : AllocationResult) × (allocate keys input ≡ ok result)
allocate-returns_example = allocate-returns keys input input_limits input-IsInput
