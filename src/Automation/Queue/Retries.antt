-- ===== src/Automation/Queue/Retries.antt =====
-- retryJob: a job that failed waits for its backoff.
use fairway.Base.{
  some_injective, ℕ, suc, List, none, if◌then◌else◌, ◌+◌, ◌%◌, ◌^◌, ◌<◌, ◌≡◌, ◌≢◌, refl, sym, ◌∙◌,
  true, false, Option, some, arith, leb, ◌==◌,
}
use fairway.Base.Bytes.{be_bytes, of_be, of_be-be_bytes}
use fairway.Base.Order.{same, same_self, list_ord}
use fairway.Fdb.{element_ord, Str, Tuple, Database}
use fairway.Automation.Types.{
  done_injective, Int64, later, add_int64, Automation, Job, Outcome, done, failed, panicked,
}
use fairway.Automation.Jobs.{encode_job, decode_job}
use fairway.Automation.Jobs.Codec.{decode_job-fields}
use fairway.Automation.Queue.{dequeue, retry_job, postponed, calculate_backoff}
use fairway.Automation.Queue.Leases.{Claimed, dequeue-Claimed}
use fairway.Automation.Queue.Exclusion.{held_job-held, read_back, later-of_lt}

-- The key of the job that a dequeue returns
abbrev pub dequeued_key {ℓ} : {S : Type ℓ} → Outcome (S × Job) → Option Tuple
dequeued_key (done (d, job)) = some job.key
dequeued_key (failed e) = none
dequeued_key panicked = none

-- What a retry leaves: the database, and the job in it.
pub record PutBack (D : Database) (a b : Automation) (d : D.Db) (later_on soon : Int64) (job : Job)
    (process_err : Option Str) : Type 0 where
  pub after : D.Db
  pub value : List ℕ
  pub stored : Job
  pub retried : retry_job D a d later_on job process_err ≡ done after
  pub rows : (k : Tuple) → D.get after k ≡ (if same job.key k then some value else D.get d k)
  pub decodes : decode_job job.key value ≡ done stored
  pub attempts : stored.attempts ≡ suc job.attempts % 256
  pub free : stored.owner_id ≡ 0
  pub vesting : stored.vesting_ns ≡ later_on + calculate_backoff a (suc job.attempts % 256)
  pub waits : dequeued_key (dequeue D b after soon) ≢ some job.key

module _ (D : Database) (a : Automation) where
  -- The database after a retry that does not give up.
  abbrev pub put_back : D.Db → Int64 → Job → D.Db
  put_back d later_on job =
      D.set d job.key (encode_job (postponed a later_on (read_back job.key job)))

  retry_job-held :
      (d d' : D.Db) (now later_on : Int64) (job : Job) (process_err : Option Str)
      → a.worker_id < 2 ^ 128
      → job.attempts < 256
      → suc job.attempts % 256 < a.config.max_attempts
      → Claimed D a now d d' job
      → retry_job D a d' later_on job process_err ≡ done (put_back d' later_on job)
  unfolding retry_job
  retry_job-held d d' now later_on job process_err fits small left c =
      let own : (a.worker_id == a.worker_id) ≡ true = ground arith in
      let more : leb a.config.max_attempts (suc (of_be (be_bytes 1 job.attempts)) % 256) ≡ false =
        rw (of_be-be_bytes 1 job.attempts small) (ground (arith, left)) in
      rw (rw own at (held_job-held D a a d d' now job fits c), more) refl

  vesting_back :
      (later_on : Int64) (job : Job)
      → job.attempts < 256
      → later_on + calculate_backoff a (suc job.attempts % 256) < 2 ^ 63
      → of_be (be_bytes 8 (postponed a later_on (read_back job.key job)).vesting_ns)
        ≡ later_on + calculate_backoff a (suc job.attempts % 256)
  unfolding postponed
  vesting_back later_on job small room =
      let attempts : of_be (be_bytes 1 job.attempts) ≡ job.attempts =
        of_be-be_bytes 1 job.attempts small in
      rw attempts (
        of_be-be_bytes 8 (add_int64 later_on (calculate_backoff a (suc job.attempts % 256)))
          (omega (arith, room))
        ∙ omega (arith, room))

  attempts_back :
      (later_on : Int64) (job : Job)
      → job.attempts < 256
      → (read_back job.key (postponed a later_on (read_back job.key job))).attempts
        ≡ suc job.attempts % 256
  unfolding postponed
  attempts_back later_on job small =
      rw (of_be-be_bytes 1 job.attempts small)
        (of_be-be_bytes 1 (suc job.attempts % 256) (omega arith))

  unowned_back :
      (later_on : Int64) (job : Job)
      → (read_back job.key (postponed a later_on (read_back job.key job))).owner_id ≡ 0
  unfolding postponed
  unowned_back later_on job = of_be-be_bytes 16 0 (omega arith)

  -- A job that is not due is not dequeued.
  still_waits :
      (b : Automation) (after : D.Db) (soon : Int64) (key : Tuple) (value : List ℕ) (stored : Job)
      → D.get after key ≡ some value
      → decode_job key value ≡ done stored
      → later stored.vesting_ns soon ≡ true
      → (o : Outcome (D.Db × Job)) → dequeue D b after soon ≡ o
      → dequeued_key o ≢ some key
  still_waits b after soon key value stored row decodes waits (failed e) k same_key = cc same_key
  still_waits b after soon key value stored row decodes waits panicked k same_key = cc same_key
  still_waits b after soon key value stored row decodes waits (done (d, other)) k same_key =
      let second : Claimed D b soon after d other = dequeue-Claimed D b after d soon other k in
      let at_key : other.key ≡ key = some_injective same_key in
      let same_value : value ≡ second.value =
        some_injective (sym row ∙ (rw at_key at second.was)) in
      let same_stored : stored ≡ second.claim.stored =
        done_injective (sym decodes ∙ (rw (at_key, ← same_value) at second.claim.decodes)) in
      cc (same_stored, waits, second.claim.vested)

  -- When a worker, whose id has 16 bytes, retries a job that it dequeued, with no other write in between,
  -- with attempts left and their number below 256, the retry succeeds. The job's row then holds a job that
  -- no worker owns, with one attempt more (as a byte), due at the retry's time plus the backoff of that
  -- number of attempts; every other row is as it was; and, with no write in between, no dequeue before it
  -- is due returns the job. The due time stays below 2^63.
  pub retry_backs_off :
      (b : Automation) (d d' : D.Db) (now later_on soon : Int64) (job : Job)
      (process_err : Option Str)
      → a.worker_id < 2 ^ 128
      → job.attempts < 256
      → suc job.attempts % 256 < a.config.max_attempts
      → later_on + calculate_backoff a (suc job.attempts % 256) < 2 ^ 63
      → soon < later_on + calculate_backoff a (suc job.attempts % 256)
      → dequeue D a d now ≡ done (d', job)
      → PutBack D a b d' later_on soon job process_err
  retry_backs_off b d d' now later_on soon job process_err fits small left room early h =
      let first : Claimed D a now d d' job = dequeue-Claimed D a d d' now job h in
      let again : Job = postponed a later_on (read_back job.key job) in
      let due : of_be (be_bytes 8 again.vesting_ns)
          ≡ later_on + calculate_backoff a (suc job.attempts % 256) =
        vesting_back later_on job small room in
      let after : D.Db = put_back d' later_on job in
      record {
        after = after;
        value = encode_job again;
        stored = read_back job.key again;
        retried = retry_job-held d d' now later_on job process_err fits small left first;
        rows = λ k. D.get-set d' job.key k (encode_job again);
        decodes = decode_job-fields job.key again;
        attempts = attempts_back later_on job small;
        free = unowned_back later_on job;
        vesting = due;
        waits = λ same_key.
            still_waits b after soon job.key (encode_job again) (read_back job.key again)
              (rw (D.get-set d' job.key job.key (encode_job again), same_self job.key) refl)
              (decode_job-fields job.key again)
              (rw due (
                later-of_lt (later_on + calculate_backoff a (suc job.attempts % 256)) soon room
                  early))
              (dequeue D b after soon) refl same_key;
      }
