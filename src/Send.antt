-- ===== src/Send.antt =====
-- lib/send.ts: what became of a journaled transaction, and how it changed one account's lamports.
-- The answers of the RPC node are the parameter `Rpc`.
pub mod Outcome
pub mod Tests
use text.Mathlib.Text.{◌==◌ as str_eq}
use Prim.Native.String.{String}
use stonkfolio.Prelude.{
  ℕ, zero, suc, ◌+◌, Bool, true, false, ltb, if◌then◌else◌, List, [], ◌∷◌, Option, none, some,
}
use stonkfolio.Prelude.Int.{ℤ, pos, sub_ℕ}

pub data Confirmation : Type 0 where
  processed confirmed finalized : Confirmation

pub record Status : Type 0 where
  pub failed_on_chain : Bool
  pub confirmation : Confirmation

-- `tx.meta` with the account keys of its message; the balances are in the order of the keys.
pub record Meta : Type 0 where
  pub keys : List String
  pub pre_balances : List ℕ
  pub post_balances : List ℕ
  pub fee : ℕ

-- `transaction s n` is the answer to the n-th request for it; `none` while it is not indexed.
pub record Rpc : Type 0 where
  pub status : String → Option Status
  pub block_height : ℕ
  pub transaction : String → ℕ → Option Meta

pub data SignatureOutcome : Type 0 where
  landed failed expired pending : SignatureOutcome

abbrev pub expiry_margin_blocks : ℕ
expiry_margin_blocks = 150

outcome_of : Status → SignatureOutcome
outcome_of s =
    if s.failed_on_chain
    then failed
    else elim s.confirmation [ processed ↦ pending | confirmed ↦ landed | finalized ↦ landed ]

unfoldable pub resolve_signature : Rpc → String → (last_valid_block_height : ℕ) → SignatureOutcome
unfolding outcome_of
resolve_signature rpc signature last_valid = elim (rpc.status signature) [
  | some s ↦ outcome_of s
  | none ↦ if ltb (last_valid + expiry_margin_blocks) rpc.block_height then expired else pending
]

pub record LamportChange : Type 0 where
  pub delta : ℤ
  pub fee : ℕ

-- The loop over the keys, up to the first that is the account.
unfoldable pub delta_of : String → List String → (pre post : List ℕ) → ℤ
delta_of account (k ∷ keys) (a ∷ pre) (b ∷ post) =
    if str_eq k account then sub_ℕ b a else delta_of account keys pre post
delta_of account _ _ _ = pos 0

-- The retries from the given attempt on, with so many left.
lamport_change_from : Rpc → (signature account : String) → (left attempt : ℕ) → Option LamportChange
lamport_change_from rpc signature account zero attempt = none
lamport_change_from rpc signature account (suc left) attempt =
    elim (rpc.transaction signature attempt) [
      | some m ↦
          some
            (record { delta = delta_of account m.keys m.pre_balances m.post_balances; fee = m.fee })
      | none ↦ lamport_change_from rpc signature account left (suc attempt)
    ]

unfoldable pub lamport_change : Rpc → (signature account : String) → Option LamportChange
unfolding lamport_change_from delta_of
lamport_change rpc signature account = lamport_change_from rpc signature account 6 0
