-- ===== src/Tokens.antt =====
-- lib/tokens.ts: which mints the keeper buys. An account is its bytes; `token_program` and
-- `token_2022_program` are the owners that @solana/spl-token names.
pub mod Vetted
mod Tests
use Prim.Native.String.{String}
use text.Mathlib.Text.{◌==◌ as str_eq}
use stonkfolio.Prelude.{
  ℕ, zero, suc, ◌+◌, ◌*◌, List, [], ◌∷◌, Bool, true, false, not, ◌&&◌, ◌||◌, any, length, take,
  drop, get_or, max, ltb, leb, ◌==◌, if◌then◌else◌,
}

-- The reasons are the texts that the code gives, by the numbers in them.
pub data Refusal : Type 0 where
  not_a_token_program too_small not_initialized freeze_authority legacy_extension malformed :
      Refusal
  truncated frozen_by_default close_authority active_hook hook_authority : Refusal
  fee_too_high : (bps limit : ℕ) → Refusal
  not_allowed : (extension : ℕ) → Refusal

pub data MintVetResult : Type 0 where
  accepted : MintVetResult
  refused : Refusal → MintVetResult

pub record MintVetOptions : Type 0 where
  pub allow_freeze_authority : Bool
  pub max_transfer_fee_bps : ℕ

abbrev pub mint_base_len : ℕ
mint_base_len = 82

abbrev pub account_base_len : ℕ
account_base_len = 165

-- The extension types that pass without a look at their data.
abbrev pub allowed_without_checks : List ℕ
allowed_without_checks = 10 ∷ 18 ∷ 19 ∷ 20 ∷ 21 ∷ 22 ∷ 23 ∷ []

-- `data.readUInt16LE(offset)` inside the data
abbrev pub read_u16 : List ℕ → (offset : ℕ) → ℕ
read_u16 bytes offset = get_or bytes offset 0 + 256 * get_or bytes (suc offset) 0

-- `bytes.some((b) => b !== 0)`
abbrev pub is_set : List ℕ → Bool
is_set bytes = any (λ b. not (b == 0)) bytes

-- Whether the data of one extension lets the mint pass: the loop goes on, or the refusal.
vet_state : List ℕ → MintVetResult
vet_state value =
    if ltb (length value) 1 || (get_or value 0 0 == 2) then refused frozen_by_default else accepted

vet_close : List ℕ → MintVetResult
vet_close value =
    if ltb (length value) 32
    then refused truncated
    else if is_set (take 32 value)
    then refused close_authority
    else accepted

vet_hook : List ℕ → MintVetResult
vet_hook value =
    if ltb (length value) 64
    then refused truncated
    else if is_set (take 32 (drop 32 value))
    then refused active_hook
    else if is_set (take 32 value)
    then refused hook_authority
    else accepted

vet_fee : (limit : ℕ) → List ℕ → MintVetResult
vet_fee limit value =
    if ltb (length value) 108
    then refused truncated
    else let fee = max (read_u16 value 88) (read_u16 value 106) in
      if ltb limit fee then refused (fee_too_high fee limit) else accepted

unfoldable pub vet_extension : MintVetOptions → (extension : ℕ) (value : List ℕ) → MintVetResult
unfolding vet_state vet_close vet_hook vet_fee
vet_extension opts extension value =
    if any (λ e. e == extension) allowed_without_checks
    then accepted
    else if extension == 6
    then vet_state value
    else if extension == 3
    then vet_close value
    else if extension == 14
    then vet_hook value
    else if extension == 1
    then vet_fee opts.max_transfer_fee_bps value
    else refused (not_allowed extension)

-- The loop over the extensions from their first byte on. Every turn drops four bytes at least, so the
-- length of the data is fuel enough.
unfoldable pub vet_extensions : MintVetOptions → (fuel : ℕ) → List ℕ → MintVetResult
unfolding vet_extension
vet_extensions opts zero bytes = accepted
vet_extensions opts (suc fuel) bytes =
    let extension = read_u16 bytes 0 in
    let size = read_u16 bytes 2 in
    let later = vet_extensions opts fuel (drop (4 + size) bytes) in
    if ltb (length bytes) 4
    then accepted
    else if extension == 0
    then accepted
    else if ltb (length bytes) (4 + size)
    then refused truncated
    else elim (vet_extension opts extension (take size (drop 4 bytes))) [
      | accepted ↦ later
      | refused why ↦ refused why
    ]

-- `data.readUInt32LE(46) !== 0`
abbrev pub has_freeze_authority : List ℕ → Bool
has_freeze_authority bytes = is_set (take 4 (drop 46 bytes))

module _ (token_program token_2022_program : String) where
  unfoldable pub vet_mint_data : (bytes : List ℕ) (owner : String) → MintVetOptions → MintVetResult
  unfolding vet_extensions
  vet_mint_data bytes owner opts =
      let is_2022 = str_eq owner token_2022_program in
      if not is_2022 && not (str_eq owner token_program)
      then refused not_a_token_program
      else if ltb (length bytes) mint_base_len
      then refused too_small
      else if not (get_or bytes 45 0 == 1)
      then refused not_initialized
      else if has_freeze_authority bytes && not opts.allow_freeze_authority
      then refused freeze_authority
      else if length bytes == mint_base_len
      then accepted
      else if not is_2022
      then refused legacy_extension
      else if leb (length bytes) account_base_len || not (get_or bytes account_base_len 0 == 1)
      then refused malformed
      else vet_extensions opts (length bytes) (drop (suc account_base_len) bytes)
