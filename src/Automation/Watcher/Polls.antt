-- ===== src/Automation/Watcher/Polls.antt =====
-- A poll of the watcher: each event that it reads has a job, and the cursor moves to the last one.
use fairway.Base.{ℕ, ◌≡◌, List, [], ◌∷◌, some, if◌then◌else◌, ◌==◌}
use fairway.Base.Bytes.{be_bytes}
use fairway.Base.Order.{list_ord}
use fairway.Fdb.{element_ord, Tuple, Database}
use fairway.Dcb.Types.{Versionstamp}
use fairway.Automation.Types.{Automation}
use fairway.Automation.Jobs.{job_key, fresh_job, encode_job}
use fairway.Automation.Queue.{limited}
use fairway.Automation.Watcher.{extract_versionstamp_from_type_index, cursor_of, poll_range}

-- The versionstamp of the last row that has one.
abbrev pub last_seen : Automation → Versionstamp → List (Tuple × List ℕ) → Versionstamp
last_seen a last [] = last
last_seen a last (row ∷ rows) =
    let vs = extract_versionstamp_from_type_index a.type_index row.0 in
    last_seen a (if vs == 0 then last else vs) rows

module _ (D : Database) (a : Automation) where
  -- The queue holds a new job for the event at this position.
  abbrev pub IsQueued : D.Db → Versionstamp → Type 0
  IsQueued d vs =
      (r : List ℕ) × (D.get d (job_key D a vs r) ≡ some (encode_job (fresh_job (job_key D a vs r))))

  -- The rows that a poll reads.
  abbrev pub polled : D.Db → List (Tuple × List ℕ)
  polled d =
      limited a.config.batch_size (D.scan d (poll_range D a (cursor_of (D.get d a.cursor_key))))

  -- The end of a poll: the cursor, if some row had a versionstamp.
  moved : D.Db × Versionstamp → D.Db
  moved result =
      if result.1 == 0 then result.0 else D.set result.0 a.cursor_key (be_bytes 12 result.1)
