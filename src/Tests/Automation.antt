-- ===== src/Tests/Automation.antt =====
-- Automations on a queue with two jobs.
use fairway.Base.{ℕ, ◌≡◌, ◌≢◌, refl, [], ◌∷◌, none, arith, codes}
use fairway.Base.Bytes.{be_bytes, of_be}
use fairway.Fdb.{Tuple, text, bytes, stamp}
use fairway.Fdb.Memory.{memory, no_data, scan_memory, set_store, get_store}
use fairway.Fdb.Memory.Ranges.{within, starts, stops, below, is_prefix}
use fairway.Automation.Types.{Automation, Job, done, failed, lease_stolen}
use fairway.Automation.Jobs.{encode_job, decode_job, fresh_job}
use fairway.Automation.Jobs.Codec.{stored_at, decode_job-encode_job}
use fairway.Automation.Queue.{
  dequeue, delete_job, retry_job, calculate_backoff, claimable, leased, held_job, postponed,
}
use fairway.Automation.Queue.Exclusion.{lease_excludes, stolen_job}
use fairway.Automation.Queue.Retries.{PutBack, retry_backs_off}

abbrev pub worker : ℕ → Automation
worker id = record {
  config = record {
    num_workers = 1;
    lease_ttl = 30;
    grace_period = 60;
    max_attempts = 3;
    batch_size = 16;
    poll_interval = 1;
    retry_base_wait = 60;
  };
  type_index = text (codes "s") ∷ text (codes "t") ∷ text (codes "A") ∷ [];
  events_subspace = text (codes "s") ∷ text (codes "e") ∷ [];
  queue_dir = text (codes "q") ∷ [];
  cursor_key = text (codes "c") ∷ [];
  dlq_dir = text (codes "d") ∷ [];
  worker_id = id;
}

abbrev pub first_key : Tuple
first_key =
    text (codes "q")
    ∷ stamp (record { transaction_version = 1; user_version = 0 })
    ∷ bytes (7 ∷ [])
    ∷ []

abbrev second_key : Tuple
second_key =
    text (codes "q")
    ∷ stamp (record { transaction_version = 2; user_version = 0 })
    ∷ bytes (8 ∷ [])
    ∷ []

unfoldable pub stocked : memory.Db
stocked =
    memory.set (memory.set no_data first_key (encode_job (fresh_job first_key))) second_key
      (encode_job (fresh_job second_key))

abbrev pub first_leased : Job
first_leased = record {
  key = first_key;
  event_vs = 65536;
  vesting_ns = 0;
  expiry_ns = 35;
  lease_vs = 21474836480;
  owner_id = 1;
  attempts = 0;
}

after_first : memory.Db
after_first = memory.set stocked first_key (encode_job first_leased)

first_dequeued : dequeue memory (worker 1) stocked 5 ≡ done (after_first, first_leased)
unfolding dequeue memory no_data scan_memory set_store get_store within starts stops below is_prefix
    encode_job fresh_job claimable leased after_first stocked be_bytes of_be
first_dequeued = refl

abbrev second_leased : Job
second_leased = record {
  key = second_key;
  event_vs = 131072;
  vesting_ns = 0;
  expiry_ns = 50;
  lease_vs = 85899345920;
  owner_id = 2;
  attempts = 0;
}

after_second : memory.Db
after_second = memory.set after_first second_key (encode_job second_leased)

-- The other worker, while the first lease runs.
second_dequeued : dequeue memory (worker 2) after_first 20 ≡ done (after_second, second_leased)
unfolding dequeue memory no_data scan_memory set_store get_store within starts stops below is_prefix
    encode_job fresh_job claimable leased after_first after_second stocked be_bytes of_be
second_dequeued = refl

abbrev put_back_first : Job
put_back_first = record {
  key = first_key;
  event_vs = 0;
  vesting_ns = 70;
  expiry_ns = 0;
  lease_vs = 21474836480;
  owner_id = 0;
  attempts = 1;
}

after_retry : memory.Db
after_retry = memory.set after_first first_key (encode_job put_back_first)

first_retried : retry_job memory (worker 1) after_first 10 first_leased none ≡ done after_retry
unfolding retry_job memory no_data set_store get_store encode_job fresh_job postponed held_job
    after_first after_retry stocked be_bytes of_be
first_retried = refl

after_retry_second : memory.Db
after_retry_second = memory.set after_retry second_key (encode_job second_leased)

second_after_retry :
    dequeue memory (worker 2) after_retry 20 ≡ done (after_retry_second, second_leased)
unfolding dequeue memory no_data scan_memory set_store get_store within starts stops below is_prefix
    encode_job fresh_job claimable leased after_first after_retry after_retry_second stocked
    be_bytes of_be
second_after_retry = refl

decode_job-encode_job_example :
    decode_job first_key (encode_job first_leased) ≡ done (stored_at first_key first_leased)
decode_job-encode_job_example = decode_job-encode_job first_key first_leased (record {
  vesting = omega arith;
  expiry = omega arith;
  lease = omega arith;
  owner = omega arith;
  attempts = omega arith;
})

lease_excludes_example : second_leased.key ≢ first_leased.key
lease_excludes_example =
    lease_excludes memory (worker 1) (worker 2) stocked after_first after_second 5 20 first_leased
      second_leased (λ e. absurd (omega (arith, e))) (omega arith) (omega arith) (omega arith)
      first_dequeued second_dequeued

stolen_job_example :
    (delete_job memory (worker 2) after_first first_leased ≡ failed lease_stolen)
    × (retry_job memory (worker 2) after_first 10 first_leased none ≡ failed lease_stolen)
    × (delete_job memory (worker 1) after_first first_leased
        ≡ done (memory.clear after_first first_key))
stolen_job_example =
    stolen_job memory (worker 1) (worker 2) stocked after_first 5 10 first_leased none (omega arith)
      (λ e. absurd (omega (arith, e))) first_dequeued

calculate_backoff_small : calculate_backoff (worker 1) 1 ≡ 60
unfolding calculate_backoff
calculate_backoff_small = refl

retry_backs_off_example : PutBack memory (worker 1) (worker 2) after_first 10 20 first_leased none
retry_backs_off_example =
    retry_backs_off memory (worker 1) (worker 2) stocked after_first 5 10 20 first_leased none
      (omega arith) (omega arith) (omega arith) (rw calculate_backoff_small (omega arith))
      (rw calculate_backoff_small (omega arith)) first_dequeued
