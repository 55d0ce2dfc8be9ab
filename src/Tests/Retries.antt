-- ===== src/Tests/Retries.antt =====
-- A retry library that calls at once, and a command that meets a conflict on its first two runs.
use fairway.Base.{
  ℕ, zero, suc, ◌≡◌, refl, Bool, true, false, List, [], ◌∷◌, none, some, Option, if◌then◌else◌, ltb,
}
use fairway.Dcb.Types.{Result, ok, err, Error, append_condition_failed}
use fairway.Command.Runner.{
  Retry, with_error, Command, is_append_condition_failed, configured, options_of,
  new_command_runner, run_pure,
}

module _ {W : Type 0} where
  -- What is left to do after a call.
  next : ℕ → Bool → (W → W × Option (List Error)) → W → Error → W × Option (List Error)
  next zero retried more w e = (w, some (e ∷ []))
  next (suc n) false more w e = (w, some (e ∷ []))
  next (suc n) true more w e = ((more w).0, with_error e (more w).1)

  outcome :
      ℕ
      → (Error → Bool)
      → (W → W × Option (List Error))
      → W × Result (Unit {0})
      → W × Option (List Error)
  outcome n p more (w, ok u) = (w, none)
  outcome n p more (w, err e) = next n (p e) more w e

  calls : ℕ → (Error → Bool) → (W → W × Result (Unit {0})) → W → W × Option (List Error)
  calls zero p f w = (w, none)
  calls (suc n) p f w = outcome n p (calls n p f) (f w)

  at_once : Retry W
  unfolding calls outcome next
  at_once = record {
    do_retry = λ opts f w. calls opts.attempts opts.retry_if f w;
    succeeds = λ n p f w w' h. rw h refl;
    gives_up = gave_up;
    last_attempt = λ p f w w' e h. rw h refl;
    again = λ n p f w w' e h k. rw (h, k) refl;
  }
    where
      gave_up :
          (n : ℕ) (p : Error → Bool) (f : W → W × Result (Unit {0})) (w w' : W) (e : Error)
          → f w ≡ (w', err e)
          → p e ≡ false
          → calls (suc n) p f w ≡ (w', some (e ∷ []))
      gave_up zero p f w w' e h k = rw h refl
      gave_up (suc n) p f w w' e h k = rw (h, k) refl

-- The world counts the runs.
abbrev twice_in_conflict : Command ℕ
twice_in_conflict = record {
  run = λ reads w. (suc w, if ltb w 2 then err append_condition_failed else ok tt);
  retry_options = none;
}

-- Three runs, of which the last succeeds.
three_runs : run_pure at_once (new_command_runner []) twice_in_conflict 0 ≡ (3, none)
unfolding run_pure options_of new_command_runner configured is_append_condition_failed at_once calls
    outcome next
three_runs = refl
