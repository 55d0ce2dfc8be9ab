-- ===== src/Automation/Jobs.antt =====
-- automation_queue.go: the value of a job in the queue, and enqueueInTx.
pub mod Codec
use fairway.Base.{
  ℕ, List, [], ◌∷◌, ◌++◌, Option, none, some, if◌then◌else◌, ◌==◌, length, take, drop,
}
use fairway.Base.Bytes.{be_bytes, of_be}
use fairway.Fdb.{Tuple, bytes, stamp, Database}
use fairway.Dcb.Types.{Versionstamp, to_stamp}
use fairway.Automation.Types.{
  Automation, Job, Outcome, done, failed, invalid_job_size, no_randomness,
}

unfoldable pub encode_job : Job → List ℕ
encode_job j =
    be_bytes 8 j.vesting_ns
    ++ (be_bytes 8 j.expiry_ns
        ++ (be_bytes 12 j.lease_vs ++ (be_bytes 16 j.owner_id ++ be_bytes 1 j.attempts)))

-- value[a:b] is `take (b - a) (drop a value)`.
unfoldable pub decode_job : Tuple → List ℕ → Outcome Job
decode_job key value =
    if length value == 45
    then done (record {
      key = key;
      event_vs = 0;
      vesting_ns = of_be (take 8 value);
      expiry_ns = of_be (take 8 (drop 8 value));
      lease_vs = of_be (take 12 (drop 16 value));
      owner_id = of_be (take 16 (drop 28 value));
      attempts = of_be (take 1 (drop 44 value));
    })
    else failed invalid_job_size

-- A job that nobody holds, available at once.
unfoldable pub fresh_job : Tuple → Job
fresh_job key = record {
  key = key;
  event_vs = 0;
  vesting_ns = 0;
  expiry_ns = 0;
  lease_vs = 0;
  owner_id = 0;
  attempts = 0;
}

module _ (D : Database) (a : Automation) where
  open D use {Db, set}

  abbrev pub job_key : Versionstamp → List ℕ → Tuple
  job_key event_vs rand20 = a.queue_dir ++ stamp (to_stamp event_vs) ∷ bytes rand20 ∷ []

  -- `rand20` is what `rand.Read` fills in, or `none` when it fails.
  unfoldable pub enqueue_in_tx : Db → Option (List ℕ) → Versionstamp → Outcome Db
  unfolding encode_job fresh_job
  enqueue_in_tx d none event_vs = failed no_randomness
  enqueue_in_tx d (some rand20) event_vs =
      let key : Tuple = job_key event_vs rand20 in done (set d key (encode_job (fresh_job key)))
