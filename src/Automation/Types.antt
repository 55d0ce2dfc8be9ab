-- ===== src/Automation/Types.antt =====
-- The data of automation.go, automation_queue.go and automation_dlq.go: configuration, jobs, entries of
-- the dead letter queue, and the outcomes of the operations.
use fairway.Base.{◌≡◌, ℕ, ◌+◌, ◌%◌, ◌^◌, Bool, [], ◌∷◌, ◌++◌, Option, ltb, codes, if◌then◌else◌}
use fairway.Base.Order.{ℕ_ord, list_ord, same}
use fairway.Fdb.{Str, Tuple, text, element_ord}
use fairway.Dcb.Types.{Versionstamp}

-- An int64 is its 64 bits, read as a number; a duration is an int64 of nanoseconds.
abbrev pub Int64 : Type 0
Int64 = ℕ

-- a > b on int64
abbrev pub later : Int64 → Int64 → Bool
later a b = ltb ((b + 2 ^ 63) % 2 ^ 64) ((a + 2 ^ 63) % 2 ^ 64)

abbrev pub add_int64 : Int64 → Int64 → Int64
add_int64 a b = (a + b) % 2 ^ 64

pub record AutomationConfig : Type 0 where
  pub num_workers : ℕ
  pub lease_ttl : Int64
  pub grace_period : Int64
  pub max_attempts : ℕ
  pub batch_size : ℕ
  pub poll_interval : Int64
  pub retry_base_wait : Int64

-- The 16 bytes of a worker id are read as a number, and `[16]byte{}` is 0.
abbrev pub WorkerId : Type 0
WorkerId = ℕ

-- The parts of `Automation` that its operations on the database read.
pub record Automation : Type 0 where
  pub config : AutomationConfig
  pub type_index : Tuple
  pub events_subspace : Tuple
  pub queue_dir : Tuple
  pub cursor_key : Tuple
  pub dlq_dir : Tuple
  pub worker_id : WorkerId

pub record Job : Type 0 where
  pub key : Tuple
  pub event_vs : Versionstamp
  pub vesting_ns : Int64
  pub expiry_ns : Int64
  pub lease_vs : Versionstamp
  pub owner_id : WorkerId
  pub attempts : ℕ

-- `enqueued_at` is `none` for the zero time.
pub record DlqEntry : Type 0 where
  pub key : Tuple
  pub enqueued_at : Option Int64
  pub event_vs : Versionstamp
  pub attempts : ℕ
  pub error : Str

pub data JobError : Type 0 where
  no_jobs lease_stolen invalid_job_size foreign_key missing_event_vs not_a_versionstamp : JobError
  no_randomness invalid_dlq_size error_truncated dlq_entry_not_found : JobError

-- What a call comes to: a value, an error, or a panic of the Go runtime.
pub data Outcome {ℓ} (A : Type ℓ) : Type ℓ where
  done : A → Outcome A
  failed : JobError → Outcome A
  panicked : Outcome A

infixl 5 ◌>>=◌
abbrev pub ◌>>=◌ {ℓ κ} : {A : Type ℓ} {B : Type κ} → Outcome A → (A → Outcome B) → Outcome B
done a >>= f = f a
failed e >>= f = failed e
panicked >>= f = panicked

-- `Unpack` of a subspace: the key without the subspace's prefix
abbrev pub unpack_in : Tuple → Tuple → Outcome Tuple
unpack_in [] t = done t
unpack_in (x ∷ p) [] = failed foreign_key
unpack_in (x ∷ p) (y ∷ t) =
    let rest = unpack_in p t in if same x y then rest else failed foreign_key

-- NewAutomation: the subspaces of a queue on an event type, and the id that was drawn for it.
unfoldable pub new_automation : Str → Str → Str → AutomationConfig → WorkerId → Automation
new_automation namespace queue_id event_type config worker_id =
    let root : Str = namespace ++ (codes "/" ++ queue_id) in
    record {
      config = config;
      type_index = text namespace ∷ text (codes "t") ∷ text event_type ∷ [];
      events_subspace = text namespace ∷ text (codes "e") ∷ [];
      queue_dir = text root ∷ text (codes "queue") ∷ [];
      cursor_key = text root ∷ text (codes "cursor") ∷ [];
      dlq_dir = text root ∷ text (codes "dlq") ∷ [];
      worker_id = worker_id;
    }

pub done_injective {ℓ} : {A : Type ℓ} {x y : A} → done x ≡ done y → x ≡ y
done_injective h = cc
