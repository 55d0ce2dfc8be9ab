-- ===== src/Automation/Queue/Backoff.antt =====
-- calculateBackoff: the loop computes the power that its comment names.
use native.Mathlib.Nat.{pow-suc, pow-le-pow_right}
use fairway.Base.{ℕ, zero, suc, ◌+◌, ◌-◌, ◌*◌, ◌%◌, ◌^◌, ◌≤◌, ◌<◌, ◌≡◌, ap, arith}
use fairway.Automation.Types.{Automation}
use fairway.Automation.Queue.{calculate_backoff, quintuple}

quintuple_power : (n k : ℕ) → 5 ^ (n + k) < 2 ^ 64 → quintuple n (5 ^ k) ≡ 5 ^ (n + k)
unfolding quintuple
quintuple_power zero k h = ap (λ m. 5 ^ m) (omega arith)
quintuple_power (suc n) k h =
    let e : n + suc k ≡ suc n + k = omega arith in
    let bound : 5 ^ suc k ≤ 5 ^ (suc n + k) = pow-le-pow_right (omega arith) (omega arith) in
    let step : 5 ^ k * 5 % 2 ^ 64 ≡ 5 ^ suc k = omega (arith, pow-suc 5 k, bound, h) in
    rw step (rw e at (quintuple_power n (suc k) (rw e h)))

-- The backoff after attempt `attempt` is the configured base wait times 5 to the `attempt - 1`, and the
-- base wait itself for 0, as long as the power and the product fit an int64.
pub calculate_backoff-power :
    (a : Automation) (attempt : ℕ)
    → 5 ^ (attempt - 1) < 2 ^ 63
    → a.config.retry_base_wait * 5 ^ (attempt - 1) < 2 ^ 63
    → calculate_backoff a attempt ≡ a.config.retry_base_wait * 5 ^ (attempt - 1)
unfolding calculate_backoff
calculate_backoff-power a attempt small fits =
    let e : attempt - 1 + 0 ≡ attempt - 1 = omega arith in
    let p : quintuple (attempt - 1) 1 ≡ 5 ^ (attempt - 1) =
      rw e at (quintuple_power (attempt - 1) 0 (rw e (omega (arith, small)))) in
    rw p (omega (arith, fits))
