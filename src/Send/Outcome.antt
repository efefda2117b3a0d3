-- ===== src/Send/Outcome.antt =====
-- When a journaled transaction counts as gone, and what its retries find.
use Prim.Native.String.{String}
use stonkfolio.Prelude.{ℕ, ◌+◌, ◌<◌, ◌≡◌, ◌≢◌, ◌↔◌, false, none, some, arith}
use stonkfolio.Send.{
  Rpc, Status, processed, expired, landed, resolve_signature, expiry_margin_blocks,
}

-- A transaction counts as expired exactly when the node has no status for it and the chain is more
-- than 150 blocks past its last valid height.
pub resolve_signature-expired :
    (rpc : Rpc) (signature : String) (last_valid : ℕ)
    → (resolve_signature rpc signature last_valid ≡ expired)
      ↔ ((rpc.status signature ≡ none) × (last_valid + expiry_margin_blocks < rpc.block_height))
unfolding resolve_signature
resolve_signature-expired rpc signature last_valid = ground arith

-- It counts as landed only where the node has a status for it that is no error and not merely
-- processed.
pub resolve_signature-landed :
    (rpc : Rpc) (signature : String) (last_valid : ℕ)
    → resolve_signature rpc signature last_valid ≡ landed
    → (s : Status) × (rpc.status signature ≡ some s)
      × (s.failed_on_chain ≡ false)
      × (s.confirmation ≢ processed)
unfolding resolve_signature
resolve_signature-landed rpc signature last_valid h = ground arith
