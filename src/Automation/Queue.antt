-- ===== src/Automation/Queue.antt =====
-- automation_queue.go: the value of a job, and enqueue, dequeue, delete and retry, each one transaction.
pub mod Backoff
pub mod Leases
pub mod Exclusion
pub mod Retries
use fairway.Base.{
  ℕ, zero, suc, ◌+◌, ◌-◌, ◌*◌, ◌%◌, ◌^◌, Bool, true, false, not, ◌&&◌, List, [], ◌∷◌, ◌++◌, Option,
  none, some, if◌then◌else◌, ◌==◌, leb, length, take, drop,
}
use fairway.Base.Bytes.{be_bytes, of_be}
use fairway.Fdb.{Str, Tuple, Element, text, bytes, int, stamp, Database, KeyRange}
use fairway.Dcb.Types.{Versionstamp, to_stamp, of_stamp}
use fairway.Automation.Types.{
  Int64, later, add_int64, Automation, Job, Outcome, done, failed, panicked, ◌>>=◌, JobError,
  no_jobs, lease_stolen, invalid_job_size, missing_event_vs, not_a_versionstamp, no_randomness,
  unpack_in,
}
use fairway.Automation.Jobs.{encode_job, decode_job}
use fairway.Automation.Dlq.{move_to_dlq_in_tx}

-- The first element of the key, below the queue's prefix.
unfoldable pub first_versionstamp : Tuple → Outcome Versionstamp
first_versionstamp [] = failed missing_event_vs
first_versionstamp (stamp s ∷ t) = done (of_stamp s)
first_versionstamp (text s ∷ t) = failed not_a_versionstamp
first_versionstamp (bytes b ∷ t) = failed not_a_versionstamp
first_versionstamp (int n ∷ t) = failed not_a_versionstamp

unfoldable pub extract_event_vs_from_job_key : Tuple → Tuple → Outcome Versionstamp
unfolding first_versionstamp
extract_event_vs_from_job_key queue_dir key = unpack_in queue_dir key >>= first_versionstamp

-- `multiplier` after `n` more rounds of `multiplier *= 5`, on the 64-bit `int`
unfoldable pub quintuple : ℕ → ℕ → ℕ
quintuple zero multiplier = multiplier
quintuple (suc n) multiplier = quintuple n (multiplier * 5 % 2 ^ 64)

-- `Limit: n`, where 0 is no limit
abbrev pub limited : ℕ → List (Tuple × List ℕ) → List (Tuple × List ℕ)
limited n rows = if n == 0 then rows else take n rows

module _ (a : Automation) where
  unfoldable pub calculate_backoff : ℕ → Int64
  unfolding quintuple
  calculate_backoff attempt = a.config.retry_base_wait * quintuple (attempt - 1) 1 % 2 ^ 64

  abbrev pub with_event : Job → Outcome Versionstamp → Option Job
  with_event j (failed e) = none
  with_event j panicked = none
  with_event j (done vs) = some (record {
    key = j.key;
    event_vs = vs;
    vesting_ns = j.vesting_ns;
    expiry_ns = j.expiry_ns;
    lease_vs = j.lease_vs;
    owner_id = j.owner_id;
    attempts = j.attempts;
  })

  -- A job that was decoded is skipped if it is not vested, if a lease on it runs, or if its key is malformed.
  abbrev pub available : Int64 → Tuple → Outcome Job → Option Job
  available now key (failed e) = none
  available now key panicked = none
  available now key (done j) =
      if later j.vesting_ns now
      then none
      else if not (j.owner_id == 0) && later j.expiry_ns now
      then none
      else with_event j (extract_event_vs_from_job_key a.queue_dir key)

  -- The row's job, if this worker can claim it at `now`.
  unfoldable pub claimable : Int64 → Tuple → List ℕ → Option Job
  unfolding decode_job extract_event_vs_from_job_key
  claimable now key value = available now key (decode_job key value)

  -- The claim: binary.BigEndian.PutUint64(j.LeaseVS[:8], uint64(now)) keeps the last four bytes.
  unfoldable pub leased : Int64 → Job → Job
  leased now j = record {
    key = j.key;
    event_vs = j.event_vs;
    vesting_ns = j.vesting_ns;
    expiry_ns = add_int64 now a.config.lease_ttl;
    lease_vs = now * 2 ^ 32 + j.lease_vs % 2 ^ 32;
    owner_id = a.worker_id;
    attempts = j.attempts;
  }

  -- The job that a failed attempt puts back: `attempts` is a uint8.
  unfoldable pub postponed : Int64 → Job → Job
  unfolding calculate_backoff
  postponed now current =
      let attempts : ℕ = suc current.attempts % 256 in
      record {
        key = current.key;
        event_vs = current.event_vs;
        vesting_ns = add_int64 now (calculate_backoff attempts);
        expiry_ns = 0;
        lease_vs = current.lease_vs;
        owner_id = 0;
        attempts = attempts;
      }

module _ (D : Database) (a : Automation) where
  open D use {Db, get, set, clear, scan, range_keys}

  -- The rows of the loop over the queue: the first that can be claimed is.
  unfoldable pub claim_first : Db → Int64 → List (Tuple × List ℕ) → Outcome (Db × Job)
  unfolding claimable leased encode_job
  claim_first d now [] = failed no_jobs
  claim_first d now ((key, value) ∷ rows) =
      let rest = claim_first d now rows in
      elim (claimable a now key value) [
        | none ↦ rest
        | some j ↦ done (set d key (encode_job (leased a now j)), leased a now j)
      ]

  unfoldable pub dequeue : Db → Int64 → Outcome (Db × Job)
  unfolding claim_first
  dequeue d now = claim_first d now (limited a.config.batch_size (scan d (range_keys a.queue_dir)))

  -- The job as it is stored now, if this worker holds it; `none` if it is gone.
  unfoldable pub held_job : Db → Tuple → Outcome (Option Job)
  unfolding decode_job
  held_job d key = elim (get d key) [
    | none ↦ done none
    | some value ↦ decode_job key value >>= λ current.
        if current.owner_id == a.worker_id then done (some current) else failed lease_stolen
  ]

  unfoldable pub delete_job : Db → Job → Outcome Db
  unfolding held_job
  delete_job d job = held_job d job.key >>= λ held. elim held [
    | none ↦ done d
    | some current ↦ done (clear d job.key)
  ]

  -- `now` is the time that the transaction reads, once, on either branch.
  unfoldable pub retry_job : Db → Int64 → Job → Option Str → Outcome Db
  unfolding held_job postponed move_to_dlq_in_tx encode_job
  retry_job d now job process_err = held_job d job.key >>= λ held. elim held [
    | none ↦ done d
    | some current ↦
        if leb a.config.max_attempts (suc current.attempts % 256)
        then done (move_to_dlq_in_tx D a d now job process_err)
        else done (set d job.key (encode_job (postponed a now current)))
  ]
