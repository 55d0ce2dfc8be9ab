-- ===== src/Automation/Options.antt =====
-- automation.go: the default configuration, the options, and the registry that starts automations.
pub mod Arguments
pub mod Settings
use fairway.Base.{ℕ, ◌*◌, List, [], ◌∷◌, if◌then◌else◌}
use fairway.Base.Order.{ℕ_ord, list_ord}
use fairway.Automation.Types.{AutomationConfig, Int64, later}

abbrev nanoseconds : ℕ → Int64
nanoseconds milliseconds = milliseconds * 1000000

unfoldable pub default_config : AutomationConfig
default_config = record {
  num_workers = 1;
  lease_ttl = nanoseconds 30000;
  grace_period = nanoseconds 60000;
  max_attempts = 3;
  batch_size = 16;
  poll_interval = nanoseconds 100;
  retry_base_wait = nanoseconds 60000;
}

-- The arguments, int or time.Duration, are read by their 64 bits.
pub data AutomationOption : Type 0 where
  with_num_workers with_lease_ttl with_grace_period with_max_attempts : Int64 → AutomationOption
  with_batch_size with_poll_interval with_retry_base_wait : Int64 → AutomationOption

-- `if n > 0` of every option, on a signed number
unfoldable pub or_kept : Int64 → Int64 → Int64
or_kept n old = if later n 0 then n else old

unfoldable pub apply_option : AutomationOption → AutomationConfig → AutomationConfig
unfolding or_kept
apply_option (with_num_workers n) c = record c { num_workers = or_kept n c.num_workers }
apply_option (with_lease_ttl n) c = record c { lease_ttl = or_kept n c.lease_ttl }
apply_option (with_grace_period n) c = record c { grace_period = or_kept n c.grace_period }
apply_option (with_max_attempts n) c = record c { max_attempts = or_kept n c.max_attempts }
apply_option (with_batch_size n) c = record c { batch_size = or_kept n c.batch_size }
apply_option (with_poll_interval n) c = record c { poll_interval = or_kept n c.poll_interval }
apply_option (with_retry_base_wait n) c = record c { retry_base_wait = or_kept n c.retry_base_wait }

-- `for _, opt := range opts`
unfoldable pub apply_options : List AutomationOption → AutomationConfig → AutomationConfig
unfolding apply_option
apply_options [] c = c
apply_options (o ∷ os) c = apply_options os (apply_option o c)
