-- ===== src/Automation/Queue/Exclusion.antt =====
-- Leases keep other workers away: from the claim until the lease ends, and from the job once it is theirs.
use fairway.Base.{
  some_injective, ℕ, ◌+◌, ◌^◌, ◌<◌, ◌≡◌, ◌≢◌, refl, sym, subst, ◌∙◌, Bool, true, false, not, ◌&&◌,
  List, Option, some, arith, ◌==◌, if◌then◌else◌,
}
use fairway.Base.Bytes.{be_bytes, of_be, of_be-be_bytes}
use fairway.Fdb.{Str, Tuple, Database}
use fairway.Automation.Types.{
  done_injective, Int64, later, add_int64, Automation, Job, done, failed, lease_stolen,
}
use fairway.Automation.Jobs.{decode_job}
use fairway.Automation.Jobs.Codec.{job_of, decode_job-fields}
use fairway.Automation.Queue.{leased, dequeue, held_job, delete_job, retry_job}
use fairway.Automation.Queue.Leases.{Claimed, dequeue-Claimed}

-- The job as it is read back from its value.
abbrev pub read_back : Tuple → Job → Job
read_back key j =
    job_of key (of_be (be_bytes 8 j.vesting_ns)) (of_be (be_bytes 8 j.expiry_ns))
      (of_be (be_bytes 12 j.lease_vs)) (of_be (be_bytes 16 j.owner_id))
      (of_be (be_bytes 1 j.attempts))

pub later-of_lt : (e s : Int64) → e < 2 ^ 63 → s < e → later e s ≡ true
later-of_lt e s room early = ground (arith, room, early)

busy : (o : ℕ) (running : Bool) → o ≢ 0 → running ≡ true → (not (o == 0) && running) ≡ true
busy o running h r = let nz : (o == 0) ≡ false = ground (arith, h) in rw (nz, r) refl

owner_back :
    (a : Automation) (now : Int64) (j : Job)
    → a.worker_id < 2 ^ 128
    → of_be (be_bytes 16 (leased a now j).owner_id) ≡ a.worker_id
unfolding leased
owner_back a now j fits = of_be-be_bytes 16 a.worker_id fits

expiry_back :
    (a : Automation) (now : Int64) (j : Job)
    → now + a.config.lease_ttl < 2 ^ 63
    → of_be (be_bytes 8 (leased a now j).expiry_ns) ≡ now + a.config.lease_ttl
unfolding leased
expiry_back a now j room =
    of_be-be_bytes 8 (add_int64 now a.config.lease_ttl) (omega (arith, room)) ∙ omega (arith, room)

module _ (D : Database) (a : Automation) where
  -- The job as the database holds it after a dequeue.
  pub decodes_now :
      (d d' : D.Db) (now : Int64) (job : Job) (value : List ℕ)
      → Claimed D a now d d' job
      → D.get d' job.key ≡ some value
      → decode_job job.key value ≡ done (read_back job.key job)
  decodes_now d d' now job value c g =
      subst (λ v. decode_job job.key v ≡ done (read_back job.key job))
        (some_injective (sym c.stored_now ∙ g)) (decode_job-fields job.key job)

module _ (D : Database) (a b : Automation) where
  -- While the lease of a dequeued job runs, no dequeue returns that job: for a worker id that is not
  -- zero, times and a lease that stay below 2^63, and no write in between.
  pub lease_excludes :
      (d d' d'' : D.Db) (now soon : Int64) (job other : Job)
      → a.worker_id ≢ 0
      → a.worker_id < 2 ^ 128
      → now + a.config.lease_ttl < 2 ^ 63
      → soon < now + a.config.lease_ttl
      → dequeue D a d now ≡ done (d', job)
      → dequeue D b d' soon ≡ done (d'', other)
      → other.key ≢ job.key
  lease_excludes d d' d'' now soon job other someone fits room early h k same_key =
      let first : Claimed D a now d d' job = dequeue-Claimed D a d d' now job h in
      let second : Claimed D b soon d' d'' other = dequeue-Claimed D b d' d'' soon other k in
      let stored : read_back job.key job ≡ second.claim.stored = done_injective (
        sym (decodes_now D a d d' now job second.value first (rw same_key at second.was))
        ∙ (rw same_key at second.claim.decodes)) in
      let owner : second.claim.stored.owner_id ≡ a.worker_id =
        rw (← stored, first.is) (owner_back a now first.before fits) in
      let expiry : second.claim.stored.expiry_ns ≡ now + a.config.lease_ttl =
        rw (← stored, first.is) (expiry_back a now first.before room) in
      let held : (not (second.claim.stored.owner_id == 0)
            && later second.claim.stored.expiry_ns soon)
          ≡ true =
        busy second.claim.stored.owner_id (later second.claim.stored.expiry_ns soon)
          (rw owner someone) (rw expiry (later-of_lt (now + a.config.lease_ttl) soon room early)) in
      cc (held, second.claim.free)

  pub held_job-held :
      (d d' : D.Db) (now : Int64) (job : Job)
      → a.worker_id < 2 ^ 128
      → Claimed D a now d d' job
      → held_job D b d' job.key ≡ (
          if a.worker_id == b.worker_id
          then done (some (read_back job.key job))
          else failed lease_stolen)
  unfolding held_job
  held_job-held d d' now job fits c =
      let owner : of_be (be_bytes 16 job.owner_id) ≡ a.worker_id =
        rw c.is (owner_back a now c.before fits) in
      rw (held_job, c.stored_now, decode_job-fields job.key job, owner) refl

-- A worker whose job was dequeued by a worker with another id can neither delete nor retry it: both
-- fail with the stolen lease. The worker that dequeued it, whose id has 16 bytes, can delete it.
pub stolen_job :
    (D : Database) (a b : Automation) (d d' : D.Db) (now later_on : Int64) (job : Job)
    (process_err : Option Str)
    → a.worker_id < 2 ^ 128
    → b.worker_id ≢ a.worker_id
    → dequeue D a d now ≡ done (d', job)
    → (delete_job D b d' job ≡ failed lease_stolen)
      × (retry_job D b d' later_on job process_err ≡ failed lease_stolen)
      × (delete_job D a d' job ≡ done (D.clear d' job.key))
unfolding delete_job retry_job
stolen_job D a b d d' now later_on job process_err fits another h =
    let c : Claimed D a now d d' job = dequeue-Claimed D a d d' now job h in
    let theirs : (a.worker_id == b.worker_id) ≡ false = ground (arith, another) in
    let own : (a.worker_id == a.worker_id) ≡ true = ground arith in
    let stolen : held_job D b d' job.key ≡ failed lease_stolen =
      rw theirs at (held_job-held D a b d d' now job fits c) in
    (rw stolen refl, rw stolen refl, rw (rw own at (held_job-held D a a d d' now job fits c)) refl)
