-- ===== src/Dcb/ReadAll.antt =====
-- dcb/read.go: the sequences `Read` and `ReadAll` that a caller ranges over. The consumer `yield` gets an
-- event or an error. The times, metrics and log lines are left out.
pub mod Rows
pub mod History
pub mod Refinement
pub mod Invalid
use fairway.Base.{
  ℕ, zero, suc, Bool, true, false, List, [], ◌∷◌, Option, none, some, if◌then◌else◌, length, take,
}
use fairway.Base.Order.{same}
use fairway.Fdb.{element_ord, Tuple, Element, text, bytes, int, stamp, Database}
use fairway.Dcb.Types.{
  Versionstamp, of_stamp, Query, ReadOptions, StoredEvent, Result, ok, err, Context, Error,
  context_done, bad_key, formatted,
}
use fairway.Dcb.Index.{FdbStore}
use fairway.Dcb.Decode.{decode_event}
use fairway.Dcb.Read.{Heap, Ending, ended, aborted, panicked, read_events}

-- A call of `yield` with no error.
abbrev pub with_event :
    {Y : Type 0} → (Y → Result StoredEvent → Y × Bool) → Y → StoredEvent → Y × Bool
with_event yield y e = yield y (ok e)

-- `if !success { yield(StoredEvent{}, err) }`
unfoldable pub report : {Y : Type 0} → (Y → Result StoredEvent → Y × Bool) → Y × Ending → Y × Ending
report yield (y, aborted e) = ((yield y (err e)).0, aborted e)
report yield (y, ending) = (y, ending)

abbrev pub default_options : ReadOptions
default_options = record { limit = 0; after = none; reverse = false }

-- `if opts == nil { opts = &ReadOptions{} }`
abbrev pub options_or_default : Option ReadOptions → ReadOptions
options_or_default none = default_options
options_or_default (some opts) = opts

-- keyTuple of one element, which is a versionstamp
unfoldable pub only_stamp : Tuple → Result Versionstamp
only_stamp [] = err bad_key
only_stamp (stamp s ∷ []) = ok (of_stamp s)
only_stamp (text s ∷ []) = err bad_key
only_stamp (bytes b ∷ []) = err bad_key
only_stamp (int n ∷ []) = err bad_key
only_stamp (x ∷ y ∷ t) = err bad_key

-- `Subspace.Unpack`: what follows the prefix.
unfoldable pub below_prefix : Tuple → Tuple → Option Tuple
below_prefix [] k = some k
below_prefix (x ∷ p) [] = none
below_prefix (x ∷ p) (y ∷ k) = if same x y then below_prefix p k else none

unfoldable pub position_of_key : FdbStore → Tuple → Result Versionstamp
unfolding below_prefix only_stamp
position_of_key s k = elim (below_prefix s.events k) [
  | none ↦ err (formatted bad_key)
  | some key_tuple ↦ only_stamp key_tuple
]

module _ (D : Database) (s : FdbStore) where
  open D use {Db, scan, range_keys}

  -- `for iter.Advance()`
  unfoldable pub read_rows :
      {Y : Type 0} (yield : Y → StoredEvent → Y × Bool)
      → Context
      → Bool
      → ℕ
      → Y
      → List (Tuple × List ℕ)
      → Y × Ending
  unfolding position_of_key decode_event
  read_rows yield ctx ctx_done count y [] = (y, ended count)
  read_rows yield ctx ctx_done count y ((k, v) ∷ rows) = elim (ctx (length rows)) [
    | true ↦ (y, aborted context_done)
    | false ↦ elim (position_of_key s k) [
      | err e ↦ (y, aborted e)
      | ok vs ↦ elim (decode_event D ctx_done v) [
        | err e ↦ (y, aborted (formatted e))
        | ok decoded ↦ elim decoded [
          | none ↦ (y, panicked)
          | some event ↦ elim ((yield y (record { event = event; position = vs })).1) [
            | false ↦ ((yield y (record { event = event; position = vs })).0, ended count)
            | true ↦
                read_rows yield ctx ctx_done (suc count)
                  (yield y (record { event = event; position = vs })).0 rows
          ]
        ]
      ]
    ]
  ]

  -- ReadAll: a range read with `RangeOptions{Limit: 1000}` returns the first 1000 rows.
  unfoldable pub read_all :
      {Y : Type 0} (yield : Y → Result StoredEvent → Y × Bool)
      → Db
      → Bool
      → Context
      → Bool
      → Y
      → Y × Ending
  unfolding read_rows report
  read_all yield d done_at_start ctx ctx_done y = elim done_at_start [
    | true ↦ report yield (y, aborted context_done)
    | false ↦
        report yield
          (read_rows (with_event yield) ctx ctx_done 0 y (take 1000 (scan d (range_keys s.events))))
  ]

  -- Read
  unfoldable pub read :
      (heap : Heap) {Y : Type 0} (yield : Y → Result StoredEvent → Y × Bool)
      → Db
      → Bool
      → Context
      → Bool
      → Query
      → Option ReadOptions
      → Y
      → Y × Ending
  unfolding read_events report
  read heap yield d done_at_start ctx ctx_done query opts y = elim done_at_start [
    | true ↦ report yield (y, aborted context_done)
    | false ↦
        report yield
          (read_events D s heap (with_event yield) d ctx ctx_done query (options_or_default opts) y)
  ]
