-- ===== src/Automation/Worker.antt =====
-- automation_worker.go: what a worker does with one job. The registry, the handler and the runner of
-- commands are arguments: `deserialize` returns the text of an error or an event, `handler` returns a
-- command or nil, and `run` changes the database and returns the text of its error, if it fails.
pub mod Removal
use fairway.Base.{false, ◌⊎◌, inl, inr, [], ◌∷◌, ◌++◌, Option, none, some}
use fairway.Fdb.{Str, stamp, Database}
use fairway.Dcb.Types.{Versionstamp, to_stamp, Event, StoredEvent, Result, ok, err, Error, no_data}
use fairway.Dcb.Decode.{decode_event}
use fairway.Automation.Types.{Int64, Automation, Job, Outcome, done, failed, panicked, JobError}
use fairway.Automation.Queue.{delete_job, retry_job}

module _ (D : Database) (a : Automation) where
  open D use {Db, get}

  -- `ok none` is the panic of a tag that is not a string.
  unfoldable pub fetch_event : Db → Versionstamp → Result (Option StoredEvent)
  unfolding decode_event
  fetch_event d vs = elim (get d (a.events_subspace ++ stamp (to_stamp vs) ∷ [])) [
    | none ↦ err no_data
    | some encoded ↦ elim (decode_event D false encoded) [
      | err e ↦ err e
      | ok decoded ↦ elim decoded [
        | none ↦ ok none
        | some event ↦ ok (some (record { event = event; position = vs }))
      ]
    ]
  ]

  -- The database after the job, and the error that is sent to `errCh`, if any.
  pub record Processed : Type 0 where
    pub db : Db
    pub reported : Option JobError

  abbrev pub reports : Db → Outcome Db → Outcome Processed
  reports d (done d') = done (record { db = d'; reported = none })
  reports d (failed e) = done (record { db = d; reported = some e })
  reports d panicked = panicked

  unfoldable pub handle_job_failure : Db → Int64 → Job → Str → Outcome Processed
  handle_job_failure d now job process_err = reports d (retry_job D a d now job (some process_err))

  module _ {E C : Type 0} (describe : Error → Str) (deserialize : Event → Str ⊎ E)
      (handler : E → Option C) (run : C → Db → Db × Option Str) where
    -- The command of the handler is executed, and then the job is deleted or put back.
    unfoldable pub execute : Db → Int64 → Job → C → Outcome Processed
    unfolding handle_job_failure
    execute d now job cmd = elim ((run cmd d).1) [
      | none ↦ reports (run cmd d).0 (delete_job D a (run cmd d).0 job)
      | some e ↦ handle_job_failure (run cmd d).0 now job e
    ]

    unfoldable pub process_event : Db → Int64 → Job → Event → Outcome Processed
    unfolding execute handle_job_failure
    process_event d now job e = elim (deserialize e) [
      | inl failure ↦ handle_job_failure d now job failure
      | inr event ↦ elim (handler event) [
        | none ↦ reports d (delete_job D a d job)
        | some cmd ↦ execute d now job cmd
      ]
    ]

    unfoldable pub process_job : Db → Int64 → Job → Outcome Processed
    unfolding fetch_event process_event handle_job_failure
    process_job d now job = elim (fetch_event d job.event_vs) [
      | err e ↦ handle_job_failure d now job (describe e)
      | ok fetched ↦ elim fetched [
        | none ↦ panicked
        | some stored ↦ process_event d now job stored.event
      ]
    ]
