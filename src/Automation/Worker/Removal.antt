-- ===== src/Automation/Worker/Removal.antt =====
-- A job that was handled is removed, and the event of a job is the one in the log.
use fairway.Base.{
  ◌^◌, ◌<◌, ◌≡◌, refl, true, false, ◌⊎◌, inl, inr, List, Option, none, some, arith, In, here, ◌==◌,
}
use fairway.Base.Order.{same_self, list_ord}
use fairway.Fdb.{element_ord, Str, Tuple, Database}
use fairway.Dcb.Types.{Event, StoredEvent, ok, Error}
use fairway.Dcb.Index.{new_store}
use fairway.Dcb.Log.{Represents}
use fairway.Dcb.Decode.Fetched.{decode_event-event_value}
use fairway.Automation.Types.{Int64, Automation, Job, done}
use fairway.Automation.Queue.{dequeue, held_job, delete_job}
use fairway.Automation.Queue.Leases.{Claimed, dequeue-Claimed}
use fairway.Automation.Queue.Exclusion.{held_job-held}
use fairway.Automation.Worker.{Processed, fetch_event, process_event, process_job, execute}

held_job-same :
    (D : Database) (a : Automation) (d e : D.Db) (key : Tuple)
    → D.get e key ≡ D.get d key
    → held_job D a e key ≡ held_job D a d key
unfolding held_job
held_job-same D a d e key h = rw (held_job, h) refl

delete_job-own :
    (D : Database) (a : Automation) (d d' e : D.Db) (now : Int64) (job : Job)
    → a.worker_id < 2 ^ 128
    → Claimed D a now d d' job
    → D.get e job.key ≡ D.get d' job.key
    → delete_job D a e job ≡ done (D.clear e job.key)
unfolding delete_job
delete_job-own D a d d' e now job fits c h =
    let own : (a.worker_id == a.worker_id) ≡ true = ground arith in
    rw (held_job-same D a d' e job.key h, rw own at (held_job-held D a a d d' now job fits c)) refl

-- A worker that dequeued a job, with the event fetched and deserialized, removes the job and reports no
-- error, if the handler wants no command, or if its command runs without an error and leaves the job's
-- key as it is.
pub process_job_removes :
    (D : Database) (a : Automation) {E C : Type 0} (describe : Error → Str)
    (deserialize : Event → Str ⊎ E) (handler : E → Option C) (run : C → D.Db → D.Db × Option Str)
    (d d' : D.Db) (now later_on : Int64) (job : Job) (stored : StoredEvent) (event : E)
    → a.worker_id < 2 ^ 128
    → dequeue D a d now ≡ done (d', job)
    → fetch_event D a d' job.event_vs ≡ ok (some stored)
    → deserialize stored.event ≡ inr event
    → (handler event ≡ none)
      ⊎ ((cmd : C) × (handler event ≡ some cmd)
          × ((run cmd d').1 ≡ none)
          × (D.get (run cmd d').0 job.key ≡ D.get d' job.key))
    → (p : Processed D a) × (process_job D a describe deserialize handler run d' later_on job
        ≡ done p)
      × (D.get p.db job.key ≡ none)
      × (p.reported ≡ none)
unfolding process_job process_event execute
process_job_removes D a describe deserialize handler run d d' now later_on job stored event fits h
      fetched known (inl nothing) =
    let c : Claimed D a now d d' job = dequeue-Claimed D a d d' now job h in
    (
      record { db = D.clear d' job.key; reported = none },
      rw
          (
            process_job,
            fetched,
            process_event,
            known,
            nothing,
            delete_job-own D a d d' d' now job fits c refl,
          )
          refl,
      rw (D.get-clear d' job.key job.key, same_self job.key) refl,
      refl,
    )
process_job_removes D a describe deserialize handler run d d' now later_on job stored event fits h
      fetched known (inr (cmd, wants, succeeds, kept)) =
    let c : Claimed D a now d d' job = dequeue-Claimed D a d d' now job h in
    let after : D.Db = (run cmd d').0 in
    (
      record { db = D.clear after job.key; reported = none },
      rw
          (
            process_job,
            fetched,
            process_event,
            known,
            wants,
            execute,
            succeeds,
            delete_job-own D a d d' after now job fits c kept,
          )
          refl,
      rw (D.get-clear after job.key job.key, same_self job.key) refl,
      refl,
    )

-- On a database that holds a log, a worker that looks in the events of that namespace fetches, for the
-- position of an event of the log, that event.
pub fetch_event-log :
    (D : Database) (a : Automation) (namespace : Str) (d : D.Db) (log : List StoredEvent)
    (e : StoredEvent)
    → a.events_subspace ≡ (new_store namespace).events
    → Represents D namespace d log
    → In e log
    → fetch_event D a d e.position ≡ ok (some e)
unfolding fetch_event
fetch_event-log D a namespace d log e lies rep i =
    rw
      (
        fetch_event,
        lies,
        rep.complete e _ _ i (here refl),
        decode_event-event_value D namespace false e.event,
      )
      refl
