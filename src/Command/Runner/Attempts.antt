-- ===== src/Command/Runner/Attempts.antt =====
-- How often a command is run.
use fairway.Base.{
  ℕ, zero, suc, ◌≤◌, ◌<◌, Option, ◌≡◌, refl, ap, ◌⊎◌, inl, inr, Bool, true, List, [], none, some,
  length,
}
use fairway.Dcb.Types.{Result, ok, err, Error, Result-cases}
use fairway.Command.Runner.{
  Retry, Command, is_append_condition_failed, configured, new_command_with_effect_runner,
  options_of, run_pure,
}

-- The world after a number of runs.
abbrev pub after_runs : {W : Type 0} → (W → W × Result (Unit {0})) → ℕ → W → W
after_runs f zero w = w
after_runs f (suc n) w = after_runs f n (f w).0

-- A run that fails with a conflict.
abbrev pub IsConflict : Result (Unit {0}) → Type 0
IsConflict r = (e : Error) × (r ≡ err e) × (is_append_condition_failed e ≡ true)

-- How the calls of a command end: after a number of retried runs and one more, without an error if that
-- one succeeds, and else with an error for each run.
pub record Ran {W : Type 0} (f : W → W × Result (Unit {0})) (most : ℕ) (w : W)
    (r : W × Option (List Error)) : Type 0 where
  pub retried : ℕ
  pub bounded : suc retried ≤ most
  pub world : r.0 ≡ after_runs f (suc retried) w
  pub conflicts : (k : ℕ) → k < retried → IsConflict (f (after_runs f k w)).1
  pub ending :
      ((r.1 ≡ none) × ((f (after_runs f retried w)).1 ≡ ok tt))
      ⊎ ((es : List Error) × (r.1 ≡ some es) × (length es ≡ suc retried))

result_of :
    {W : Type 0} (f : W → W × Result (Unit {0})) (w : W)
    → (f w ≡ ((f w).0, ok tt)) ⊎ ((e : Error) × (f w ≡ ((f w).0, err e)))
result_of f w = elim (Result-cases ((f w).1)) [
  | inl (u, h) ↦ inl (ap (λ r. ((f w).0, r)) h)
  | inr (e, h) ↦ inr (e, ap (λ r. ((f w).0, r)) h)
]

module _ {W : Type 0} (retry : Retry W) (f : W → W × Result (Unit {0})) where
  abbrev conflicts_retried : ℕ → W → W × Option (List Error)
  conflicts_retried n w =
      retry.do_retry (record { attempts = n; retry_if = is_append_condition_failed }) f w

-- A runner of commands with effects that is made without options runs such a command exactly once, also
-- when the append condition fails.
pub run_with_effect_once :
    {W : Type 0} (retry : Retry W) (recoverable : Error → Bool) (cmd : Command W) (w : W)
    → cmd.retry_options ≡ none
    → (run_pure retry (new_command_with_effect_runner recoverable []) cmd w).0 ≡ (cmd.run [] w).0
unfolding run_pure options_of new_command_with_effect_runner configured
run_with_effect_once retry recoverable cmd w plain = elim (result_of (cmd.run []) w) [
  | inl h ↦ rw (plain, retry.succeeds 0 recoverable (cmd.run []) w (cmd.run [] w).0 h) refl
  | inr (e, h) ↦ rw (plain, retry.last_attempt recoverable (cmd.run []) w (cmd.run [] w).0 e h) refl
]
