-- ===== src/Automation/Jobs/Codec.antt =====
-- A job's value: what is written is read back.
use fairway.Base.{ℕ, ◌^◌, ◌<◌, ◌≡◌, refl, ap, ◌∙◌}
use fairway.Base.Bytes.{be_bytes, of_be, of_be-be_bytes}
use fairway.Fdb.{Tuple}
use fairway.Automation.Types.{Job, done}
use fairway.Automation.Jobs.{encode_job, decode_job}

-- The fields of a job fit their bytes.
pub record Fits (j : Job) : Type 0 where
  pub vesting : j.vesting_ns < 2 ^ 64
  pub expiry : j.expiry_ns < 2 ^ 64
  pub lease : j.lease_vs < 2 ^ 96
  pub owner : j.owner_id < 2 ^ 128
  pub attempts : j.attempts < 256

-- What the value of a job keeps: all but its key and its event.
abbrev pub stored_at : Tuple → Job → Job
stored_at key j = record {
  key = key;
  event_vs = 0;
  vesting_ns = j.vesting_ns;
  expiry_ns = j.expiry_ns;
  lease_vs = j.lease_vs;
  owner_id = j.owner_id;
  attempts = j.attempts;
}

abbrev pub job_of : Tuple → ℕ → ℕ → ℕ → ℕ → ℕ → Job
job_of key v e l o a = record {
  key = key;
  event_vs = 0;
  vesting_ns = v;
  expiry_ns = e;
  lease_vs = l;
  owner_id = o;
  attempts = a;
}

-- What reading makes of a written job, whatever its fields are.
pub decode_job-fields :
    (key : Tuple) (j : Job)
    → decode_job key (encode_job j)
      ≡ done (
          job_of key
            (of_be (be_bytes 8 j.vesting_ns))
            (of_be (be_bytes 8 j.expiry_ns))
            (of_be (be_bytes 12 j.lease_vs))
            (of_be (be_bytes 16 j.owner_id))
            (of_be (be_bytes 1 j.attempts)))
unfolding decode_job encode_job be_bytes
decode_job-fields key j = refl

made :
    (key : Tuple) (j : Job) {v e l o a : ℕ}
    → v ≡ j.vesting_ns
    → e ≡ j.expiry_ns
    → l ≡ j.lease_vs
    → o ≡ j.owner_id
    → a ≡ j.attempts
    → job_of key v e l o a ≡ stored_at key j
made key j p q r s t = rw (p, q, r, s, t) refl

-- A job whose fields fit their bytes is read back from its value with the key that it is read at; the
-- event, which the value does not hold, is left zero.
pub decode_job-encode_job :
    (key : Tuple) (j : Job) → Fits j → decode_job key (encode_job j) ≡ done (stored_at key j)
decode_job-encode_job key j f =
    decode_job-fields key j
    ∙ ap done (
        made key j (of_be-be_bytes 8 j.vesting_ns f.vesting) (of_be-be_bytes 8 j.expiry_ns f.expiry)
          (of_be-be_bytes 12 j.lease_vs f.lease) (of_be-be_bytes 16 j.owner_id f.owner)
          (of_be-be_bytes 1 j.attempts f.attempts))
