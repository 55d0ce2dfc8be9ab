-- ===== src/Command/Runner.antt =====
-- The runners of command.go. `retry.Do` of the retry library is an interface: it calls the function until
-- it succeeds, until it fails with an error that is not retried, or until the attempts are used up, and
-- returns no error if a call succeeds, and else the errors of all calls. Delays are left out. A world `W` is all that a call meets and changes.
pub mod Attempts
use fairway.Base.{
  ℕ, zero, suc, ◌≡◌, Bool, true, false, List, [], ◌∷◌, Option, none, some, if◌then◌else◌,
}
use fairway.Dcb.Types.{Result, ok, err, Error, append_condition_failed}
use fairway.Command.{ReadRecord}

pub record RetryOptions : Type 0 where
  pub attempts : ℕ
  pub retry_if : Error → Bool

-- errors.Is(err, dcb.ErrAppendConditionFailed)
unfoldable pub is_append_condition_failed : Error → Bool
is_append_condition_failed append_condition_failed = true
is_append_condition_failed _ = false

-- The errors of all calls, with that of one more call before them; none after a success.
abbrev pub with_error : Error → Option (List Error) → Option (List Error)
with_error e none = none
with_error e (some es) = some (e ∷ es)

pub record Retry (W : Type 0) : Type 0 where
  pub do_retry : RetryOptions → (W → W × Result (Unit {0})) → W → W × Option (List Error)
  pub succeeds :
      (n : ℕ) (p : Error → Bool) (f : W → W × Result (Unit {0})) (w w' : W)
      → f w ≡ (w', ok tt)
      → do_retry (record { attempts = suc n; retry_if = p }) f w ≡ (w', none)
  pub gives_up :
      (n : ℕ) (p : Error → Bool) (f : W → W × Result (Unit {0})) (w w' : W) (e : Error)
      → f w ≡ (w', err e)
      → p e ≡ false
      → do_retry (record { attempts = suc n; retry_if = p }) f w ≡ (w', some (e ∷ []))
  pub last_attempt :
      (p : Error → Bool) (f : W → W × Result (Unit {0})) (w w' : W) (e : Error)
      → f w ≡ (w', err e)
      → do_retry (record { attempts = 1; retry_if = p }) f w ≡ (w', some (e ∷ []))
  pub again :
      (n : ℕ) (p : Error → Bool) (f : W → W × Result (Unit {0})) (w w' : W) (e : Error)
      → f w ≡ (w', err e)
      → p e ≡ true
      → do_retry (record { attempts = suc (suc n); retry_if = p }) f w ≡ (
        (do_retry (record { attempts = suc n; retry_if = p }) f w').0,
        with_error e (do_retry (record { attempts = suc n; retry_if = p }) f w').1,
      )

-- A command: what it does with a new read appender, and its own options, if it is a RetryableCommand.
pub record Command (W : Type 0) : Type 0 where
  pub run : List ReadRecord → W → W × Result (Unit {0})
  pub retry_options : Option RetryOptions

-- A function on the runner's options; `WithRetryOptions` replaces them.
abbrev pub RunnerOption : Type 0
RunnerOption = RetryOptions → RetryOptions

abbrev pub with_retry_options : RetryOptions → RunnerOption
with_retry_options opts cr = opts

-- `for _, opt := range opts { opt(cr) }`
unfoldable pub configured : RetryOptions → List RunnerOption → RetryOptions
configured cr [] = cr
configured cr (opt ∷ opts) = configured (opt cr) opts

unfoldable pub new_command_runner : List RunnerOption → RetryOptions
unfolding configured
new_command_runner opts =
    configured (record { attempts = 4; retry_if = is_append_condition_failed }) opts

-- By default the retry library retries every error; one attempt retries none.
unfoldable pub new_command_with_effect_runner : (Error → Bool) → List RunnerOption → RetryOptions
unfolding configured
new_command_with_effect_runner recoverable opts =
    configured (record { attempts = 1; retry_if = recoverable }) opts

-- Command-level options come first.
unfoldable pub options_of : {W : Type 0} → RetryOptions → Command W → RetryOptions
options_of runner cmd = elim cmd.retry_options [ none ↦ runner | some opts ↦ opts ]

-- RunPure; RunWithEffect differs in the arguments that it passes to the command.
unfoldable pub run_pure :
    {W : Type 0} → Retry W → RetryOptions → Command W → W → W × Option (List Error)
unfolding options_of
run_pure retry runner cmd w = retry.do_retry (options_of runner cmd) (cmd.run []) w
