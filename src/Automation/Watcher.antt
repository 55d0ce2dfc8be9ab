-- ===== src/Automation/Watcher.antt =====
-- automation_watcher.go: pollAndEnqueue, one transaction.
pub mod Polls
use fairway.Base.{ℕ, suc, List, [], ◌∷◌, Option, none, some, if◌then◌else◌, ◌==◌, length}
use fairway.Base.Bytes.{be_bytes, of_be}
use fairway.Fdb.{Tuple, text, bytes, int, stamp, Database, KeyRange}
use fairway.Dcb.Types.{Versionstamp, of_stamp}
use fairway.Dcb.Index.{range_after_versionstamp}
use fairway.Automation.Types.{Automation, Outcome, done, failed, panicked, ◌>>=◌, unpack_in}
use fairway.Automation.Jobs.{enqueue_in_tx}
use fairway.Automation.Queue.{limited}

-- The last element of the key, if it is a versionstamp, and else `Versionstamp{}`, which is 0.
unfoldable pub last_versionstamp : Tuple → Versionstamp
last_versionstamp [] = 0
last_versionstamp (stamp s ∷ []) = of_stamp s
last_versionstamp (text s ∷ []) = 0
last_versionstamp (bytes b ∷ []) = 0
last_versionstamp (int n ∷ []) = 0
last_versionstamp (x ∷ y ∷ t) = last_versionstamp (y ∷ t)

unfoldable pub extract_versionstamp_from_type_index : Tuple → Tuple → Versionstamp
unfolding last_versionstamp
extract_versionstamp_from_type_index type_index key = elim (unpack_in type_index key) [
  | done t ↦ last_versionstamp t
  | failed e ↦ 0
  | panicked ↦ 0
]

-- The cursor, if a value of 12 bytes is stored for it.
unfoldable pub cursor_of : Option (List ℕ) → Option Versionstamp
cursor_of none = none
cursor_of (some value) = if length value == 12 then some (of_be value) else none

module _ (D : Database) (a : Automation) where
  open D use {Db, get, set, scan, range_keys}

  -- A fresh `rand20` for the i-th row.
  abbrev pub Random : Type 0
  Random = ℕ → Option (List ℕ)

  unfoldable pub poll_range : Option Versionstamp → KeyRange
  unfolding range_after_versionstamp
  poll_range none = range_keys a.type_index
  poll_range (some cursor) = range_after_versionstamp D a.type_index cursor

  -- The loop over the rows; `last_vs` starts at `Versionstamp{}`.
  unfoldable pub enqueue_rows :
      Db → Random → ℕ → Versionstamp → List (Tuple × List ℕ) → Outcome (Db × Versionstamp)
  unfolding extract_versionstamp_from_type_index enqueue_in_tx
  enqueue_rows d rand i last_vs [] = done (d, last_vs)
  enqueue_rows d rand i last_vs ((key, value) ∷ rows) =
      let vs : Versionstamp = extract_versionstamp_from_type_index a.type_index key in
      let skipped = enqueue_rows d rand (suc i) last_vs rows in
      if vs == 0
      then skipped
      else enqueue_in_tx D a d (rand i) vs >>= λ d'. enqueue_rows d' rand (suc i) vs rows

  unfoldable pub poll_and_enqueue : Db → Random → Outcome Db
  unfolding cursor_of poll_range enqueue_rows
  poll_and_enqueue d rand =
      let rows : List (Tuple × List ℕ) =
        limited a.config.batch_size (scan d (poll_range (cursor_of (get d a.cursor_key)))) in
      enqueue_rows d rand 0 0 rows >>= λ (result : Db × Versionstamp).
      if result.1 == 0
      then done result.0
      else done (set result.0 a.cursor_key (be_bytes 12 result.1))
