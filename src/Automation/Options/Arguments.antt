-- ===== src/Automation/Options/Arguments.antt =====
-- The arguments of the options of one kind, among the options of automation.go.
use fairway.Base.{List, [], ◌∷◌}
use fairway.Automation.Types.{Int64}
use fairway.Automation.Options.{
  AutomationOption, with_num_workers, with_lease_ttl, with_grace_period, with_max_attempts,
  with_batch_size, with_poll_interval, with_retry_base_wait,
}

abbrev pub num_workers : List AutomationOption → List Int64
num_workers [] = []
num_workers (with_num_workers n ∷ os) = n ∷ num_workers os
num_workers (_ ∷ os) = num_workers os

abbrev pub lease_ttl : List AutomationOption → List Int64
lease_ttl [] = []
lease_ttl (with_lease_ttl n ∷ os) = n ∷ lease_ttl os
lease_ttl (_ ∷ os) = lease_ttl os

abbrev pub grace_period : List AutomationOption → List Int64
grace_period [] = []
grace_period (with_grace_period n ∷ os) = n ∷ grace_period os
grace_period (_ ∷ os) = grace_period os

abbrev pub max_attempts : List AutomationOption → List Int64
max_attempts [] = []
max_attempts (with_max_attempts n ∷ os) = n ∷ max_attempts os
max_attempts (_ ∷ os) = max_attempts os

abbrev pub batch_size : List AutomationOption → List Int64
batch_size [] = []
batch_size (with_batch_size n ∷ os) = n ∷ batch_size os
batch_size (_ ∷ os) = batch_size os

abbrev pub poll_interval : List AutomationOption → List Int64
poll_interval [] = []
poll_interval (with_poll_interval n ∷ os) = n ∷ poll_interval os
poll_interval (_ ∷ os) = poll_interval os

abbrev pub retry_base_wait : List AutomationOption → List Int64
retry_base_wait [] = []
retry_base_wait (with_retry_base_wait n ∷ os) = n ∷ retry_base_wait os
retry_base_wait (_ ∷ os) = retry_base_wait os
