-- ===== src/Round/Holders/Exclusions.antt =====
-- The wallets that a list of exclusions leaves in.
use Prim.Native.String.{String}
use text.Mathlib.Text.{◌==◌ as str_eq}
use text.Mathlib.TextEquality.{eq_iff}
use stonkfolio.Prelude.{◌≡◌, ◌≢◌, ◌∙◌, List, [], ◌∷◌, All, none, Bool-cases, inl, inr}
use stonkfolio.Prelude.Maps.{lookup, insert, lookup-insert}
use stonkfolio.Round.Types.{ExclusionEntry}
use stonkfolio.Round.Holders.{exclusion_map}

-- No entry of the list names the wallet.
abbrev pub IsUnlisted : List ExclusionEntry → String → Type 0
IsUnlisted exclusions o = All (λ e. e.owner ≢ o) exclusions

pub lookup-exclusion_map :
    (o : String) (es : List ExclusionEntry) (m : List (String × String))
    → lookup o (exclusion_map es m) ≡ none
    → IsUnlisted es o × (lookup o m ≡ none)
unfolding exclusion_map
lookup-exclusion_map o [] m h = (tt, h)
lookup-exclusion_map o (e ∷ es) m h =
    let (rest, first) = lookup-exclusion_map o es (insert e.owner e.reason m) h in
    let step = lookup-insert e.owner o e.reason m in
    elim (Bool-cases (str_eq e.owner o)) [
      | inl same ↦ absurd (let step' = rw same at step in cc)
      | inr other ↦ (
        (λ same. let eq = (eq_iff e.owner o).1 same in cc, rest),
        (let step' = rw other at step in cc),
      )
    ]

pub exclusion_map-lookup :
    (o : String) (es : List ExclusionEntry) (m : List (String × String))
    → IsUnlisted es o
    → lookup o m ≡ none
    → lookup o (exclusion_map es m) ≡ none
unfolding exclusion_map
exclusion_map-lookup o [] m out h = h
exclusion_map-lookup o (e ∷ es) m out h =
    exclusion_map-lookup o es (insert e.owner e.reason m) out.1
      (elim (Bool-cases (str_eq e.owner o)) [
        | inl same ↦ absurd (out.0 ((eq_iff e.owner o).0 same))
        | inr other ↦ lookup-insert e.owner o e.reason m ∙ rw other h
      ])
