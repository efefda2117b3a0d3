-- ===== src/Engine/Tests.antt =====
-- Runs of the round engine.
use Prim.Native.String.{String}
use stonkfolio.Prelude.{
  arith, ℕ, ◌+◌, ◌*◌, ◌≤◌, ◌<◌, ◌≡◌, ◌⊎◌, List, [], ◌∷◌, ◌++◌, length, replicate, none, some, true,
  false, err, ok, refl, min, leb,
}
use stonkfolio.Prelude.Int.{pos, whole}
use stonkfolio.Ledger.{Ledger, total}
use stonkfolio.Send.{Rpc}
use stonkfolio.Round.Policy.{RoundPolicy}
use stonkfolio.Prelude.{suc}
use stonkfolio.Store.{
  amount_held, KeeperState, ActiveRound, RoundStatus, FundedAsset, FundStatus, initial_state,
}
use stonkfolio.Prelude.Sort.{sort_by}
use stonkfolio.Prelude.Maps.{lookup}
use stonkfolio.Engine.{
  ◌>>=◌, lift, save, return, Client, RoundParams, Memory, IntentView, IntentStatus, Activation,
  thrown, worked, with_round,
}
use stonkfolio.Engine.Opening.{Secrets, fresh_round}
use stonkfolio.Engine.Collect.{Sources, collect, collect_open}
use stonkfolio.Engine.Collect.Window.{collect-forgets_window}
use stonkfolio.Engine.Buy.{BasketCandidate, SwapResult, plan_purchases}
use stonkfolio.Engine.Buy.Budget.{Planned, plan_purchases_lem}
use stonkfolio.Engine.Reserve.{Mints, reserve_assets}
use stonkfolio.Tokens.{vet_mint_data}
use stonkfolio.Engine.Reserve.Taken.{reserve_assets-takes}
use stonkfolio.Engine.Reserve.Vetted.{IsVetted, IsBasket, reserve_assets-IsBasket}
use stonkfolio.Engine.Reserve.Kept.{reserve_assets-tokens}
use stonkfolio.Engine.Finish.{finish_paying}
use stonkfolio.Engine.Finish.Kept.{
  reserved_by, reserved_by_option, Unlisted, DistinctIds, tokens, finish_paying-tokens, here,
}
use stonkfolio.Engine.Commit.{PreparedRound, hand_over, commit}
use stonkfolio.Engine.Commit.Kept.{commit-tokens}
use stonkfolio.Engine.Activate.{find_asset, Progress, activated, adopted, fail_activation}
use stonkfolio.Engine.Activate.Kept.{held, activation-held}
use stonkfolio.Engine.Push.{PushPlan, Sender, Pushing, in_block, push_block}
use stonkfolio.Engine.Push.Once.{times, times_sent, push_block-times}
use stonkfolio.Engine.Push.All.{push_block-all}
use stonkfolio.Engine.Queue.{Queue}
use stonkfolio.Engine.Safe.{IsWellFormed, Ends}
use stonkfolio.Engine.Step.{Outside, step}
use stonkfolio.Engine.Step.Safe.{begin, stepped, Reached-step}
use stonkfolio.Store.Inventory.{for_mint}

abbrev policy : RoundPolicy
policy = record {
  version = whole (pos 1);
  samples_per_round = whole (pos 2);
  min_window_secs = whole (pos 60);
  seed_slot_offset = whole (pos 8);
  min_eligible_usd_micro = pos 1;
  max_leaves_per_asset = whole (pos 100);
  max_min_leaf_passes = whole (pos 2);
  min_leaf_value_lamports = pos 1;
  auto_push_min_rent_multiple = whole (pos 2);
  exclude_off_curve_owners = true;
  static_exclusions = [];
  price_feed_account = "feed";
  price_feed_id_hex = "00";
  max_price_age_secs = whole (pos 60);
  max_price_conf_bps = whole (pos 100);
  min_expiry_secs = whole (pos 0);
  round_expiry_secs = whole (pos 900);
}

abbrev params : RoundParams
params = record {
  mean_snapshot_interval_secs = 100;
  max_window_secs = 1000;
  round_cost_max_bps = 500;
  expected_basket_size = 2;
  priority_fee_lamports_per_tx = 0;
  swap_impact_bps = 10;
  swap_overhead_lamports = 5;
  max_buy_attempts = 3;
  max_buy_phase_secs = 600;
  max_transfer_fee_bps = 300;
  max_activation_attempts = 3;
  max_pushes_per_step = 16;
  max_push_attempts = 5;
}

abbrev rpc : Rpc
rpc = record { status = λ s. none; block_height = 100; transaction = λ s n. none }

abbrev intent : IntentView
intent = record {
  round_id = 7;
  status = IntentStatus.opened;
  open_slot = 40;
  open_ts = 10;
  close_slot = 0;
  close_ts = 0;
  snapshot_count = 0;
  snapshot_chain_head_hex = "";
  secret_commitment_hex = "commitment";
  seed_hash_hex = "";
}

abbrev client : Client
client = record {
  ensure_distributor = ok none;
  next_round_id = ok 7;
  fetch_intent = λ call id. ok (some intent);
  open_round = λ id c. ok "open";
  close_window = λ id head n. ok "close";
  record_seed = λ id. ok "seed";
  abandon_round = λ id. ok "abandon";
  fetch_round = λ call id. ok (some (record { assets_root = "root"; expiry_ts = 900 }));
  commit_round = λ id root hash n expiry. ok "commit";
  fetch_round_asset = λ id i. ok none;
  open_fund_activate = λ id i n. ok (record { signature = some "fund"; transferred = n });
  close_asset = λ id i. ok "closed";
  vault_balance = λ id i. ok 0;
  net_after_transfer_fee = λ mint program gross. ok gross;
  gross_for_net = λ mint program net. ok net;
}

abbrev secrets : Secrets
secrets = record { random = "secret"; commitment = λ s. "commitment"; genesis = λ id. "genesis" }

abbrev sources : Sources
sources = record {
  holders = err "indexer down";
  pool_price = ok (record { num = pos 1; den = pos 1 });
  sol_usd_micro = none;
  snapshot_hash = λ s. "hash";
  extend_chain = λ head hash. hash;
  interval = λ secret i mean. mean;
  keys = record { is_key = λ k. true; buffer = λ k. []; is_on_curve = λ k. true };
}

-- 100 tokens of one coin in hand, and 40 of another.
abbrev ledger : Ledger
ledger = record {
  basket_lamports = 1000;
  flywheel_lamports = 0;
  platform_buyback_lamports = 0;
  platform_revenue_lamports = 0;
  operations_lamports = 0;
}

abbrev asset : FundedAsset
asset = record {
  mint = "cat";
  token_program = "token";
  fund_amount = 100;
  allocatable = 100;
  min_leaf_amount = 0;
  status = FundStatus.pending;
  attempts = 0;
  last_error = none;
  next_attempt_at = none;
}

abbrev round : ActiveRound
round = fresh_round secrets 7 5

abbrev holding : KeeperState
holding = record initial_state {
  ledger = ledger;
  inventory = ("cat", record { token_program = "token"; amount = 100 }) ∷ [];
  round = some round;
}

collect-forgets_window_example :
    let m : Memory = record { disk = holding; confirmed_open = none } in
    (collect sources policy params "keeper" client rpc (λ n. ok 1) round 20 holding m
      ≡ (record m { confirmed_open = some 7 }, err (thrown "indexer down")))
    × ((later : ℕ) (saved : KeeperState)
        → let confirmed : Memory = record { disk = saved; confirmed_open = some 7 } in
          collect sources policy params "keeper" client rpc (λ n. ok 1) round later saved confirmed
          ≡ collect_open sources policy params "keeper" client rpc
              (λ n. ok 1)
              round
              later
              saved
              confirmed)
collect-forgets_window_example =
    collect-forgets_window sources policy params "keeper" client rpc (λ n. ok 1) round 20 holding
      (record { disk = holding; confirmed_open = none }) intent "indexer down" refl refl refl refl
      refl refl

abbrev basket : List BasketCandidate
basket =
    record { mint = "cat"; token_program = "token" }
    ∷ record { mint = "dog"; token_program = "token" }
    ∷ []

plan_purchases_lem_example :
    let after = plan_purchases (λ n. ok 1) params basket 30 200 round holding in
    (total after.ledger ≡ total holding.ledger)
    × ((((length basket ≡ 0) ⊎ (1000 < 200 + length basket * suc 5))
          × (after
              ≡ with_round (record round { seeded_at = some 30; purchases = some [] }) holding))
        ⊎ ((planned : ActiveRound) × Planned params basket 200 holding after planned))
plan_purchases_lem_example = plan_purchases_lem (λ n. ok 1) params basket 30 200 round holding

-- A bare mint: initialized, without a freeze authority.
abbrev mints : Mints
mints = record {
  token_program = "token";
  token_2022_program = "token2022";
  info =
      λ mint. some (record { owner = "token"; bytes = replicate 45 0 ++ 1 ∷ [] ++ replicate 36 0 });
}

abbrev reserved_round : ActiveRound
reserved_round = record round { assets = some (asset ∷ []); status = RoundStatus.funded }

reserves :
    reserve_assets client policy params (ok mints) round holding
    ≡ ok (with_round reserved_round (record holding { inventory = [] }), worked)
unfolding reserve_assets sort_by lookup
reserves = refl

reserve_assets-IsBasket_example :
    (assets : List FundedAsset) × (some reserved_round
      ≡ some (record round { assets = some assets; status = RoundStatus.funded }))
    × IsBasket client policy params mints assets
reserve_assets-IsBasket_example =
    reserve_assets-IsBasket client policy params mints round holding reserves

holds_cat : lookup "cat" holding.inventory ≡ some (record { token_program = "token"; amount = 100 })
unfolding lookup
holds_cat = refl

cat-IsVetted : IsVetted client policy params mints "cat" "token"
unfolding vet_mint_data
cat-IsVetted = (
  record { owner = "token"; bytes = replicate 45 0 ++ 1 ∷ [] ++ replicate 36 0 },
  refl,
  refl,
  refl,
)

reserve_assets-takes_example :
    (amount_held "cat" [] ≡ 0)
    ⊎ ((assets : List FundedAsset) × (some reserved_round
          ≡ some (record round { assets = some assets; status = RoundStatus.funded }))
        × (length assets ≡ 30))
reserve_assets-takes_example =
    reserve_assets-takes client policy params mints "cat" round holding
      (record { token_program = "token"; amount = 100 }) holds_cat cat-IsVetted (omega arith)
      reserves

reserve_assets-tokens_example :
    (tokens "cat" (with_round reserved_round (record holding { inventory = [] }))
      ≡ tokens "cat" holding)
    × (((amount_held "cat" [] ≡ amount_held "cat" holding.inventory)
          × (reserved_by_option "cat" (some reserved_round) ≡ 0))
        ⊎ ((amount_held "cat" [] ≡ 0)
            × (reserved_by_option "cat" (some reserved_round)
                ≡ amount_held "cat" holding.inventory)))
reserve_assets-tokens_example =
    reserve_assets-tokens client policy params "cat" (ok mints) round holding refl refl reserves

abbrev prepared : PreparedRound
prepared = record {
  assets_root = "root";
  manifest_hash = "hash";
  assets = record { asset_idx = 0; mint = "cat"; token_program = "token" } ∷ [];
  leaves = [];
  purchases = [];
}

abbrev prepared_round : ActiveRound
prepared_round = record reserved_round {
  status = RoundStatus.prepared;
  manifest_hash_hex = some "hash";
  assets_root_hex = some "root";
}

abbrev collecting_state : KeeperState
collecting_state = record holding { inventory = []; round = some prepared_round }

commits :
    commit client rpc "keeper" policy (ok prepared) 50 prepared_round collecting_state
    ≡ ok ((hand_over prepared 900 prepared_round collecting_state).0, worked)
unfolding commit hand_over
commits = refl

commit-tokens_example :
    tokens "cat" (hand_over prepared 900 prepared_round collecting_state).0
    ≡ tokens "cat" collecting_state
unfolding Unlisted
commit-tokens_example =
    commit-tokens client rpc "keeper" policy "cat" (ok prepared) 50 prepared_round collecting_state
      refl tt commits

abbrev paying_state : KeeperState
paying_state = record holding { inventory = []; round = none; paying = reserved_round ∷ [] }

finish_paying-tokens_example :
    (amount_held "cat" (finish_paying reserved_round paying_state).0.inventory
      ≡ amount_held "cat" paying_state.inventory + reserved_by "cat" reserved_round)
    × Unlisted 7 (finish_paying reserved_round paying_state).0.paying
    × (tokens "cat" (finish_paying reserved_round paying_state).0 ≡ tokens "cat" paying_state)
unfolding DistinctIds Unlisted
finish_paying-tokens_example = finish_paying-tokens "cat" reserved_round paying_state here (tt, tt)

abbrev progress : Progress
progress = record {
  round = reserved_round;
  state = paying_state;
  backing_off = false;
  report = none;
}

activation-held_example :
    ((a : Activation)
      → held "cat" (activated client rpc "keeper" params (λ t. false) 50 asset a progress)
          + for_mint "cat" "cat" (min a.transferred 100)
        ≡ held "cat" progress)
    × ((used : ℕ)
        → held "cat" (adopted client rpc "keeper" params (λ t. false) 50 asset used progress)
            + for_mint "cat" "cat" (min used 100)
          ≡ held "cat" progress)
    × ((text : String)
        → held "cat"
            (fail_activation client rpc "keeper" params (λ t. false) 50 asset text progress)
          ≡ held "cat" progress)
unfolding find_asset
activation-held_example =
    activation-held client rpc "keeper" params (λ t. false) 50 "cat" asset progress refl refl

-- Blocks of one leaf fit, and the program refuses none.
abbrev sender : Sender
sender = record {
  fits = λ b. leb (length b.planned) 1;
  send = λ b. ok tt;
  is_transient = λ t. false;
  is_permanent = λ t. false;
}

abbrev leaf : ℕ → PushPlan
leaf i = record {
  leaf = record { leaf_idx = i; recipient = "holder"; amount = 10 };
  failure = none;
  rent = 0;
}

abbrev plan : List PushPlan
plan = leaf 8 ∷ leaf 10 ∷ leaf 15 ∷ []

abbrev idle : Pushing
idle = record { round = reserved_round; sent = [] }

push_block-times_example :
    times_sent 10 (push_block sender params 0 50 3 8 plan idle).1.sent
    ≤ times 10 (in_block 8 3 plan) + times_sent 10 []
push_block-times_example = push_block-times sender params 0 50 10 3 8 plan idle

push_block-all_example :
    ((push_block sender params 0 50 3 8 plan idle).0.pushed ≡ length (in_block 8 3 plan))
    × ((push_block sender params 0 50 3 8 plan idle).0.paused ≡ none)
push_block-all_example = push_block-all sender params 0 50 (λ b. refl) 3 8 plan idle

three_pushed : (push_block sender params 0 50 3 8 plan idle).0.pushed ≡ 3
unfolding push_block
three_pushed = refl

-- The first of two leaves is claimed.
abbrev active_client : Client
active_client = record client {
  fetch_round_asset =
      λ id i. ok (some (record { is_active = true; funded = 100; bitmap = 1 ∷ [] }));
}

abbrev active_round : ActiveRound
active_round = record round {
  assets = some (record asset { status = FundStatus.active } ∷ []);
  status = RoundStatus.active;
}

abbrev two_leaves : PreparedRound
two_leaves = record prepared { leaves = ((leaf 0).leaf ∷ (leaf 1).leaf ∷ []) ∷ [] }

abbrev one_due : Queue
one_due = record {
  blocks =
      record {
        asset = record { asset_idx = 0; mint = "cat"; token_program = "token" };
        first_leaf = 0;
        candidates = record { leaf = (leaf 1).leaf; failure = none } ∷ [];
      }
      ∷ [];
  queued = 1;
  deferred = 0;
}

abbrev outside : Outside
outside = record {
  now = 20;
  client = record client { fetch_intent = λ call id. ok none };
  rpc = rpc;
  keeper = "keeper";
  secrets = secrets;
  sources = sources;
  slot = ok 50;
  selected = ok basket;
  attempt = record {
    wallet_secret_hex = "key";
    signing = ok ("fund", 500);
    sent = ok tt;
    swap = ok (SwapResult.signed "swap");
  };
  wallet = record {
    public_key = λ secret. secret;
    sweep = ok (record { tokens = 0; lamports_returned = 0; signing = none; sent = ok tt });
    history = ok [];
  };
  mints = ok mints;
  built = λ r. ok prepared;
  published = ok tt;
  bundle = λ r. ok prepared;
  sender = sender;
  accounts = record {
    exists = λ mint recipient. true;
    rent = λ n. ok 1;
    account_len = λ mint. ok 165;
    token_2022_program = "token2022";
  };
}

abbrev start : Memory
start = record { disk = initial_state; confirmed_open = none }

-- The first step opens a round, and the second one starts from there.
Reached-step_example :
    IsWellFormed (step policy params outside start).0.disk
    × Ends (λ report. Unit) (step policy params outside (step policy params outside start).0).1
unfolding step Unlisted ◌>>=◌ lift save return
Reached-step_example =
    Reached-step policy params outside (step policy params outside start).0
      (stepped outside start (begin start refl) (λ id known. tt)) (λ id known. tt)
