-- ===== src/Engine/Buy/Budget.antt =====
-- How keeper/round/engine.ts divides the pot of a round among the coins of its basket.
use stonkfolio.Prelude.{
  ℕ, suc, ltb, ◌==◌, ◌/◌, map, ◌∷◌, ◌+◌, ◌-◌, ◌*◌, ◌≤◌, ◌<◌, ◌≡◌, ◌⊎◌, List, [], length, leb, some,
  arith, refl, Bool-cases, inl, inr,
}
use native.Mathlib.Nat.{div-add-mod, mod-lt, mul-suc, mul-le-mul_left}
use stonkfolio.Ledger.{total}
use stonkfolio.Store.{KeeperState, ActiveRound, PurchaseRecord, PurchaseStatus}
use stonkfolio.Engine.{Answer, RoundParams, with_round}
use stonkfolio.Engine.Buy.{BasketCandidate, fresh_purchase, per_coin_of, set_aside, plan_purchases}

share_bounds : (m n : ℕ) → 0 < n → (n * (m / n) ≤ m) × (m < n * suc (m / n))
share_bounds m n h =
    let parts = div-add-mod m n in
    let small = mod-lt m h in
    let next = mul-suc n (m / n) in (omega (arith, parts), omega (arith, parts, small, next))

-- All shares and the reserve fit in the pot, and one lamport more for each coin does not.
per_coin_of-fits :
    (pot reserve coins : ℕ)
    → 0 < per_coin_of pot reserve coins
    → (reserve + coins * per_coin_of pot reserve coins ≤ pot)
      × (pot < reserve + coins * suc (per_coin_of pot reserve coins))
unfolding per_coin_of
per_coin_of-fits pot reserve coins h = elim (Bool-cases (coins == 0)) [
  | inl e ↦ absurd (ground (arith, e, h))
  | inr e ↦ elim (Bool-cases (ltb reserve pot)) [
    | inl room ↦
        let bounds = share_bounds (pot - reserve) coins (ground (arith, e)) in
        let over : reserve < pot = ground (arith, room) in
        rw (e, room) (omega (arith, over, bounds.0), omega (arith, over, bounds.1))
    | inr none_left ↦ absurd (ground (arith, e, none_left, h))
  ]
]

-- Where a share is no more than the overhead, there are no coins or the pot is too small for them.
per_coin_of-small :
    (pot reserve coins overhead : ℕ)
    → per_coin_of pot reserve coins ≤ overhead
    → (coins ≡ 0) ⊎ (pot < reserve + coins * suc overhead)
unfolding per_coin_of
per_coin_of-small pot reserve coins overhead h = elim (Bool-cases (coins == 0)) [
  | inl e ↦ inl (ground (arith, e))
  | inr e ↦
      let several : 0 < coins = ground (arith, e) in
      inr (elim (Bool-cases (ltb reserve pot)) [
        | inl room ↦
            let over : reserve < pot = ground (arith, room) in
            let few : (pot - reserve) / coins ≤ overhead = ground (arith, e, room, h) in
            let bounds = share_bounds (pot - reserve) coins several in
            let grows =
              mul-le-mul_left {m = suc ((pot - reserve) / coins)} {n = suc overhead} coins
                (omega (arith, few)) in
            omega (arith, over, bounds.1, grows)
        | inr none_left ↦
            let under : pot ≤ reserve = ground (arith, none_left) in
            omega (arith, under, several, mul-suc coins overhead)
      ])
]

-- A purchase of each candidate in order, still to be made.
abbrev pub IsPlanned : List BasketCandidate → List PurchaseRecord → Type 0
IsPlanned [] [] = Unit
IsPlanned [] (p ∷ ps) = ⊥
IsPlanned (c ∷ cs) [] = ⊥
IsPlanned (c ∷ cs) (p ∷ ps) =
    (p.mint ≡ c.mint)
    × (p.token_program ≡ c.token_program)
    × (p.status ≡ PurchaseStatus.pending)
    × (p.lamports_spent ≡ 0)
    × IsPlanned cs ps

-- What is saved where coins are bought: each coin's budget is the largest equal share of what the reserve
-- leaves of the pot, and above a buy's overhead.
pub record Planned (params : RoundParams) (candidates : List BasketCandidate) (reserve : ℕ)
    (before after : KeeperState) (planned : ActiveRound) : Type 0 where
  pub share : ℕ
  pub purchases : List PurchaseRecord
  pub current : after.round ≡ some planned
  pub budget : planned.basket_budget_lamports ≡ some share
  pub reserved : planned.operations_reserve_lamports ≡ some reserve
  pub bought : planned.purchases ≡ some purchases
  pub each : IsPlanned candidates purchases
  pub above : params.swap_overhead_lamports < share
  pub fits : reserve + length candidates * share ≤ before.ledger.basket_lamports
  pub largest : before.ledger.basket_lamports < reserve + length candidates * suc share
  pub moved : after.ledger.operations_lamports ≡ before.ledger.operations_lamports + reserve
  pub left : after.ledger.basket_lamports + reserve ≡ before.ledger.basket_lamports

fresh-IsPlanned :
    (candidates : List BasketCandidate) → IsPlanned candidates (map fresh_purchase candidates)
fresh-IsPlanned [] = tt
fresh-IsPlanned (c ∷ cs) = (refl, refl, refl, refl, fresh-IsPlanned cs)

-- A round's purchases are planned from its pot without a lamport made or lost: either there are no
-- candidates or the pot cannot give each of them more than a buy's overhead after the reserve, and nothing
-- is bought or moved; or a purchase of each candidate is saved, with the largest equal share of what the
-- reserve leaves of the pot as the budget of each, and the reserve moves to the operations bucket.
pub plan_purchases_lem :
    (rent : ℕ → Answer ℕ) (params : RoundParams) (candidates : List BasketCandidate)
    (now reserve : ℕ) (round : ActiveRound) (s : KeeperState)
    → let after = plan_purchases rent params candidates now reserve round s in
      (total after.ledger ≡ total s.ledger)
      × ((((length candidates ≡ 0)
              ⊎ (s.ledger.basket_lamports
                  < reserve + length candidates * suc params.swap_overhead_lamports))
            × (after ≡ with_round (record round { seeded_at = some now; purchases = some [] }) s))
          ⊎ ((planned : ActiveRound) × Planned params candidates reserve s after planned))
unfolding plan_purchases set_aside total
plan_purchases_lem rent params candidates now reserve round s =
    let pot = s.ledger.basket_lamports in
    let share = per_coin_of pot reserve (length candidates) in
    elim (Bool-cases (leb share params.swap_overhead_lamports)) [
      | inl e ↦ rw e (
        refl,
        inl (
          per_coin_of-small pot reserve (length candidates) params.swap_overhead_lamports
              (ground arith),
          refl,
        ),
      )
      | inr e ↦
          let above : params.swap_overhead_lamports < share = ground arith in
          let (fits, largest) =
            per_coin_of-fits pot reserve (length candidates) (omega (arith, above)) in
          rw e (
            omega (arith, fits),
            inr (
              record round {
                seeded_at = some now;
                operations_reserve_lamports = some reserve;
                basket_budget_lamports = some share;
                purchases = some (map fresh_purchase candidates);
              },
              record {
                share = share;
                purchases = map fresh_purchase candidates;
                current = refl;
                budget = refl;
                reserved = refl;
                bought = refl;
                each = fresh-IsPlanned candidates;
                above = above;
                fits = fits;
                largest = largest;
                moved = refl;
                left = omega (arith, fits);
              },
            ),
          )
    ]
