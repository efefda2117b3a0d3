-- ===== src/Ledger/Backoff.antt =====
-- How the pause between attempts grows.
use native.Mathlib.Nat.{pow-le-pow_right, mul-le-mul_left, pow-suc, mul_assoc, mul_comm}
use stonkfolio.Prelude.{ℕ, suc, ◌+◌, ◌-◌, ◌*◌, ◌^◌, ◌≤◌, ◌≡◌, min, arith, refl, sym, ◌∙◌}
use stonkfolio.Ledger.{backoff_secs}

-- The pause is never above the limit, never gets shorter with further attempts, is the base (or the limit)
-- before and at the first attempt, and doubles with each further one until the limit is reached.
pub backoff_secs_lem :
    (attempts more base limit : ℕ)
    → (backoff_secs attempts base limit ≤ limit)
      × (backoff_secs attempts base limit ≤ backoff_secs (attempts + more) base limit)
      × (backoff_secs 0 base limit ≡ min base limit)
      × (backoff_secs 1 base limit ≡ min base limit)
      × (backoff_secs (suc (suc attempts)) base limit
          ≡ min (2 * backoff_secs (suc attempts) base limit) limit)
unfolding backoff_secs
backoff_secs_lem attempts more base limit =
    let grows =
      mul-le-mul_left base (pow-le-pow_right {n = 2} (omega arith) (later attempts more)) in
    let none_yet : base * 2 ^ (0 - 1) ≡ base = omega arith in
    let first : base * 2 ^ (1 - 1) ≡ base = omega arith in
    (
      omega arith,
      omega (arith, grows),
      rw none_yet refl,
      rw first refl,
      twice (base * 2 ^ (suc attempts - 1)) (base * 2 ^ (suc (suc attempts) - 1)) doubled,
    )
  where
    later : (a m : ℕ) → a - 1 ≤ a + m - 1
    later a m = omega arith

    doubled : base * 2 ^ (suc (suc attempts) - 1) ≡ 2 * (base * 2 ^ (suc attempts - 1))
    doubled =
        let up : suc (suc attempts) - 1 ≡ suc attempts = omega arith in
        let down : suc attempts - 1 ≡ attempts = omega arith in
        let step = pow-suc 2 attempts in
        rw (up, down, step)
          (sym (mul_assoc base (2 ^ attempts) 2) ∙ mul_comm (base * 2 ^ attempts) 2)

    twice : (a b : ℕ) → b ≡ 2 * a → min b limit ≡ min (2 * min a limit) limit
    twice a b h = ground (arith, h)
