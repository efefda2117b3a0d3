-- ===== src/Send/Tests.antt =====
-- Runs of the resolution of journaled transactions.
use stonkfolio.Prelude.{◌<◌, ◌+◌, ◌≡◌, ◌≢◌, ◌↔◌, refl, false, none, some}
use stonkfolio.Send.{Rpc, Status, processed, confirmed, expired, resolve_signature}
use stonkfolio.Send.Outcome.{resolve_signature-expired, resolve_signature-landed}

abbrev silent : Rpc
silent = record { status = λ s. none; block_height = 651; transaction = λ s n. none }

abbrev answering : Rpc
answering = record {
  status = λ s. some (record { failed_on_chain = false; confirmation = confirmed });
  block_height = 651;
  transaction = λ s n. none;
}

resolve_signature-expired_example :
    (resolve_signature silent "sig" 500 ≡ expired)
    ↔ ((silent.status "sig" ≡ none) × (500 + 150 < 651))
resolve_signature-expired_example = resolve_signature-expired silent "sig" 500

resolve_signature-landed_example :
    (s : Status) × (answering.status "sig" ≡ some s)
    × (s.failed_on_chain ≡ false)
    × (s.confirmation ≢ processed)
unfolding resolve_signature
resolve_signature-landed_example = resolve_signature-landed answering "sig" 500 refl
