-- ===== src/Tokens/Vetted.antt =====
-- What lib/tokens.ts knows of a mint that it accepts.
use Prim.Native.String.{String}
use text.Mathlib.Text.{◌==◌ as str_eq}
use stonkfolio.Prelude.{
  ℕ, zero, suc, ◌+◌, ◌≤◌, ◌<◌, ◌≡◌, ◌⊎◌, ◌==◌, ◌&&◌, ◌||◌, not, List, length, take, drop, get_or,
  ltb, leb, Bool, true, false, any, arith, refl, Bool-cases, inl, inr, if◌then◌else◌, length-drop,
  ==_iff,
}
use stonkfolio.Tokens.{
  MintVetResult, accepted, refused, MintVetOptions, read_u16, is_set, vet_extension, vet_extensions,
  vet_mint_data, has_freeze_authority, allowed_without_checks, vet_hook, vet_fee, vet_close,
  vet_state, legacy_extension, malformed,
}

-- An extension that leaves no one the power to freeze, close, hook or tax a holder's tokens: one of the
-- harmless types; accounts that do not start frozen; no close authority; no hook and no authority to
-- set one; or transfer fees, now and next, within the limit.
abbrev pub IsHarmless : MintVetOptions → (extension : ℕ) (value : List ℕ) → Type 0
IsHarmless opts extension value =
    (any (λ e. e == extension) allowed_without_checks ≡ true)
    ⊎ (((extension ≡ 6) × ((get_or value 0 0 == 2) ≡ false))
        ⊎ (((extension ≡ 3) × (is_set (take 32 value) ≡ false))
            ⊎ (((extension ≡ 14)
                  × (is_set (take 32 (drop 32 value)) ≡ false)
                  × (is_set (take 32 value) ≡ false))
                ⊎ ((extension ≡ 1)
                    × (read_u16 value 88 ≤ opts.max_transfer_fee_bps)
                    × (read_u16 value 106 ≤ opts.max_transfer_fee_bps)))))

-- The extensions in the bytes, up to their end or an entry of type 0, lie whole within the bytes and are
-- all harmless.
pub data AllHarmless (opts : MintVetOptions) : List ℕ → Type 0 where
  short : {bytes : List ℕ} → length bytes < 4 → AllHarmless opts bytes
  ended : {bytes : List ℕ} → read_u16 bytes 0 ≡ 0 → AllHarmless opts bytes
  harmless :
      {bytes : List ℕ}
      → 4 + read_u16 bytes 2 ≤ length bytes
      → IsHarmless opts (read_u16 bytes 0) (take (read_u16 bytes 2) (drop 4 bytes))
      → AllHarmless opts (drop (4 + read_u16 bytes 2) bytes)
      → AllHarmless opts bytes

vet_hook-accepted :
    (value : List ℕ)
    → vet_hook value ≡ accepted
    → (is_set (take 32 (drop 32 value)) ≡ false) × (is_set (take 32 value) ≡ false)
unfolding vet_hook
vet_hook-accepted value h = elim (Bool-cases (ltb (length value) 64)) [
  | inl e ↦ let h = rw e at h in cc
  | inr e ↦
      let h = rw e at h in
      elim (Bool-cases (is_set (take 32 (drop 32 value)))) [
        | inl f ↦ let h = rw f at h in cc
        | inr f ↦
            let h = rw f at h in
            elim (Bool-cases (is_set (take 32 value))) [
              | inl g ↦ let h = rw g at h in cc
              | inr g ↦ (f, g)
            ]
      ]
]

vet_extension-IsHarmless :
    (opts : MintVetOptions) (extension : ℕ) (value : List ℕ)
    → vet_extension opts extension value ≡ accepted
    → IsHarmless opts extension value
unfolding vet_extension vet_state vet_close vet_fee
vet_extension-IsHarmless opts extension value h =
    elim (Bool-cases (any (λ e. e == extension) allowed_without_checks)) [
      | inl e ↦ inl e
      | inr e ↦
          let h = rw e at h in
          elim (Bool-cases (extension == 6)) [
            | inl six ↦ inr (inl (ground arith, ground (arith, rw six at h)))
            | inr n6 ↦
                let h = rw n6 at h in
                elim (Bool-cases (extension == 3)) [
                  | inl three ↦ inr (inr (inl (ground arith, ground (arith, rw three at h))))
                  | inr n3 ↦
                      let h = rw n3 at h in
                      elim (Bool-cases (extension == 14)) [
                        | inl hook ↦
                            let clear = vet_hook-accepted value (rw hook at h) in
                            let fourteen : extension ≡ 14 = (==_iff extension 14).0 hook in
                            inr (inr (inr (inl (fourteen, clear.0, clear.1))))
                        | inr n14 ↦
                            let h = rw n14 at h in
                            elim (Bool-cases (extension == 1)) [
                              | inl fee ↦
                                  let h = rw fee at h in
                                  inr (inr (inr (inr (ground arith, ground arith, ground arith))))
                              | inr n1 ↦ let h = rw n1 at h in cc
                            ]
                      ]
                ]
          ]
    ]

goes_on :
    (r later : MintVetResult)
    → (elim r [ accepted ↦ later | refused why ↦ refused why ]) ≡ accepted
    → (r ≡ accepted) × (later ≡ accepted)
goes_on accepted later h = (refl, h)
goes_on (refused why) later h = cc

vet_extensions-AllHarmless :
    (opts : MintVetOptions) (fuel : ℕ) (bytes : List ℕ)
    → length bytes ≤ fuel
    → vet_extensions opts fuel bytes ≡ accepted
    → AllHarmless opts bytes
unfolding vet_extensions
vet_extensions-AllHarmless opts zero bytes h accepts = short (omega (arith, h))
vet_extensions-AllHarmless opts (suc fuel) bytes h accepts =
    elim (Bool-cases (ltb (length bytes) 4)) [
      | inl e ↦ short (ground arith)
      | inr e ↦
          let accepts = rw e at accepts in
          elim (Bool-cases (read_u16 bytes 0 == 0)) [
            | inl f ↦ ended ((==_iff (read_u16 bytes 0) 0).0 f)
            | inr f ↦
                let accepts = rw f at accepts in
                elim (Bool-cases (ltb (length bytes) (4 + read_u16 bytes 2))) [
                  | inl g ↦ let accepts = rw g at accepts in cc
                  | inr g ↦
                      let value = take (read_u16 bytes 2) (drop 4 bytes) in
                      let rest = drop (4 + read_u16 bytes 2) bytes in
                      let both =
                        goes_on (vet_extension opts (read_u16 bytes 0) value)
                          (vet_extensions opts fuel rest) (rw g at accepts) in
                      let long : 4 ≤ length bytes = ground arith in
                      harmless (ground arith)
                        (vet_extension-IsHarmless opts (read_u16 bytes 0) value both.0)
                        (vet_extensions-AllHarmless opts fuel rest
                          (omega (arith, h, long, length-drop (4 + read_u16 bytes 2) bytes)) both.1)
                ]
          ]
    ]

one_of : (a b : Bool) → (not a && not b) ≡ false → (a || b) ≡ true
one_of true b h = refl
one_of false true h = refl
one_of false false h = cc

ltb→le : (a b : ℕ) → ltb a b ≡ false → b ≤ a
ltb→le a b h = ground arith

module _ (token_program token_2022_program : String) where
  -- The tests after the one for a freeze authority.
  vet_tail :
      (bytes : List ℕ) (owner : String) (opts : MintVetOptions)
      → (if length bytes == 82
          then accepted
          else if not (str_eq owner token_2022_program)
          then refused legacy_extension
          else if leb (length bytes) 165 || not (get_or bytes 165 0 == 1)
          then refused malformed
          else vet_extensions opts (length bytes) (drop 166 bytes))
        ≡ accepted
      → (length bytes ≡ 82)
        ⊎ ((str_eq owner token_2022_program ≡ true) × AllHarmless opts (drop 166 bytes))
  vet_tail bytes owner opts accepts = elim (Bool-cases (length bytes == 82)) [
    | inl a ↦ inl ((==_iff (length bytes) 82).0 a)
    | inr a ↦
        let accepts = rw a at accepts in
        elim (Bool-cases (str_eq owner token_2022_program)) [
          | inr b ↦ let accepts = rw b at accepts in cc
          | inl b ↦
              let accepts = rw b at accepts in
              elim (Bool-cases (leb (length bytes) 165 || not (get_or bytes 165 0 == 1))) [
                | inl c ↦ let accepts = rw c at accepts in cc
                | inr c ↦ inr (
                  b,
                  vet_extensions-AllHarmless opts (length bytes) (drop 166 bytes)
                      (omega (arith, length-drop 166 bytes)) (rw c at accepts),
                )
              ]
        ]
  ]

  -- A mint that is accepted belongs to one of the two token programs, is initialized, has no freeze
  -- authority unless one is allowed, and is either a bare mint or a Token-2022 mint all of whose
  -- extensions are harmless: no hook, no close authority, no accounts that start frozen, and transfer
  -- fees within the limit.
  pub vet_mint_data-accepted :
      (bytes : List ℕ) (owner : String) (opts : MintVetOptions)
      → vet_mint_data token_program token_2022_program bytes owner opts ≡ accepted
      → ((str_eq owner token_2022_program || str_eq owner token_program) ≡ true)
        × (82 ≤ length bytes)
        × (get_or bytes 45 0 ≡ 1)
        × ((has_freeze_authority bytes && not opts.allow_freeze_authority) ≡ false)
        × ((length bytes ≡ 82)
            ⊎ ((str_eq owner token_2022_program ≡ true) × AllHarmless opts (drop 166 bytes)))
  unfolding vet_mint_data
  vet_mint_data-accepted bytes owner opts accepts =
      let is_2022 = str_eq owner token_2022_program in
      elim (Bool-cases (not is_2022 && not (str_eq owner token_program))) [
        | inl a ↦ let accepts = rw a at accepts in cc
        | inr a ↦
            let accepts = rw a at accepts in
            elim (Bool-cases (ltb (length bytes) 82)) [
              | inl b ↦ let accepts = rw b at accepts in cc
              | inr b ↦
                  let accepts = rw b at accepts in
                  elim (Bool-cases (get_or bytes 45 0 == 1)) [
                    | inr c ↦ let accepts = rw c at accepts in cc
                    | inl c ↦
                        let accepts = rw c at accepts in
                        elim (Bool-cases
                          (has_freeze_authority bytes && not opts.allow_freeze_authority)) [
                            | inl d ↦ let accepts = rw d at accepts in cc
                            | inr d ↦ (
                              one_of is_2022 (str_eq owner token_program) a,
                              ltb→le (length bytes) 82 b,
                              (==_iff (get_or bytes 45 0) 1).0 c,
                              d,
                              vet_tail bytes owner opts (rw d at accepts),
                            )
                          ]
                  ]
            ]
      ]
