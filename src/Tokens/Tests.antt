-- ===== src/Tokens/Tests.antt =====
-- Runs of the test of a mint.
use text.Mathlib.Text.{◌==◌ as str_eq}
use stonkfolio.Prelude.{
  ℕ, ◌≤◌, ◌≡◌, ◌⊎◌, ◌&&◌, ◌||◌, not, List, [], ◌∷◌, ◌++◌, length, drop, replicate, get_or, true,
  false, refl,
}
use stonkfolio.Tokens.{
  MintVetOptions, accepted, refused, active_hook, vet_mint_data, has_freeze_authority,
}
use stonkfolio.Tokens.Vetted.{AllHarmless, vet_mint_data-accepted}

abbrev opts : MintVetOptions
opts = record { allow_freeze_authority = false; max_transfer_fee_bps = 300 }

-- A Token-2022 mint with one extension of 64 bytes: a hook of type 14.
abbrev with_hook : (program : ℕ) → List ℕ
with_hook program =
    replicate 45 0
    ++ 1 ∷ []
    ++ replicate 119 0
    ++ 1 ∷ 14 ∷ 0 ∷ 64 ∷ 0 ∷ []
    ++ replicate 63 0
    ++ program ∷ []

no_hook : vet_mint_data "token" "token2022" (with_hook 0) "token2022" opts ≡ accepted
unfolding vet_mint_data
no_hook = refl

hook_refused :
    vet_mint_data "token" "token2022" (with_hook 9) "token2022" opts ≡ refused active_hook
unfolding vet_mint_data
hook_refused = refl

vet_mint_data-accepted_example :
    ((str_eq "token2022" "token2022" || str_eq "token2022" "token") ≡ true)
    × (82 ≤ length (with_hook 0))
    × (get_or (with_hook 0) 45 0 ≡ 1)
    × ((has_freeze_authority (with_hook 0) && not opts.allow_freeze_authority) ≡ false)
    × ((length (with_hook 0) ≡ 82)
        ⊎ ((str_eq "token2022" "token2022" ≡ true) × AllHarmless opts (drop 166 (with_hook 0))))
vet_mint_data-accepted_example =
    vet_mint_data-accepted "token" "token2022" (with_hook 0) "token2022" opts no_hook
