-- ===== src/Dcb/ReadAll/Refinement.antt =====
-- `Read` and `ReadAll` against the log.
use fairway.Base.{
  ℕ, suc, ◌≡◌, refl, ap, Bool, false, inl, inr, Bool-cases, List, [], ◌∷◌, ◌++◌, map, Option, some,
  In, All, zero, length, take,
}
use fairway.Base.Order.{same_self}
use fairway.Fdb.{element_ord, Str, Tuple, stamp, Database}
use fairway.Dcb.Types.{Versionstamp, to_stamp, Query, ReadOptions, StoredEvent, Result, ok, Context}
use fairway.Dcb.Index.{FdbStore, new_store, extract_versionstamp}
use fairway.Dcb.Decode.Fetched.{decode_event-event_value}
use fairway.Dcb.Log.{Represents, IsIndexable, IsAscending}
use fairway.Dcb.Log.Ranges.{extract_versionstamp-append}
use fairway.Dcb.Log.Items.{IsProper}
use fairway.Dcb.Read.{Heap, limit_reached}
use fairway.Dcb.Read.Queue.{IsQueue}
use fairway.Dcb.Read.Deliver.{deliver}
use fairway.Dcb.Read.Refinement.{selected, read_events-Refines}
use fairway.Dcb.ReadAll.Rows.{row_of, scan_events}
use fairway.Dcb.ReadAll.{
  report, with_event, options_or_default, only_stamp, below_prefix, position_of_key, read_rows,
  read_all, read,
}

below_prefix-append : (p k : Tuple) → below_prefix p (p ++ k) ≡ some k
unfolding below_prefix
below_prefix-append [] k = refl
below_prefix-append (x ∷ p) k = rw (same_self x) (below_prefix-append p k)

position_of_key-events :
    (namespace : Str) (p : Versionstamp)
    → position_of_key
        (new_store namespace)
        ((new_store namespace).events ++ stamp (to_stamp p) ∷ [])
      ≡ ok p
unfolding position_of_key only_stamp extract_versionstamp
position_of_key-events namespace p =
    rw (position_of_key, below_prefix-append (new_store namespace).events (stamp (to_stamp p) ∷ []))
      (ap ok (extract_versionstamp-append [] p))

-- A delivery ends with a count, so no error is reported.
report-deliver :
    {Y : Type 0} (yield : Y → Result StoredEvent → Y × Bool) (limit count : ℕ) (y : Y)
    (es : List StoredEvent)
    → report yield (deliver (with_event yield) limit count y es)
      ≡ deliver (with_event yield) limit count y es
unfolding report deliver
report-deliver yield limit count y [] = refl
report-deliver yield limit count y (e ∷ es) = elim (Bool-cases ((yield y (ok e)).1)) [
  | inr full ↦ rw (deliver, full) refl
  | inl wants ↦ elim (Bool-cases (limit_reached limit (suc count))) [
    | inl reached ↦ rw (deliver, wants, reached) refl
    | inr below ↦
        rw (deliver, wants, below) (report-deliver yield limit (suc count) (yield y (ok e)).0 es)
  ]
]

module _ (D : Database) (namespace : Str) where
  abbrev store : FdbStore
  store = new_store namespace

  -- The rows of events are read back, each given to `yield` in turn.
  read_rows-deliver :
      {Y : Type 0} (yield : Y → StoredEvent → Y × Bool) (ctx : Context) (ctx_done : Bool)
      (count : ℕ) (y : Y) (es : List StoredEvent)
      → ((k : ℕ) → ctx k ≡ false)
      → read_rows D store yield ctx ctx_done count y (map (row_of D namespace) es)
        ≡ deliver yield 0 count y es
  unfolding read_rows deliver limit_reached row_of
  read_rows-deliver yield ctx ctx_done count y [] goes_on = refl
  read_rows-deliver yield ctx ctx_done count y (e ∷ es) goes_on =
      rw
        (
          read_rows,
          goes_on (length (map (row_of D namespace) es)),
          position_of_key-events namespace e.position,
          decode_event-event_value D namespace ctx_done e.event,
        )
        (elim (Bool-cases ((yield y e).1)) [
          | inr full ↦ rw (full, deliver) refl
          | inl wants ↦
              rw (wants, deliver)
                (read_rows-deliver yield ctx ctx_done (suc count) (yield y e).0 es goes_on)
        ])

  take-map_row :
      (n : ℕ) (es : List StoredEvent)
      → take n (map (row_of D namespace) es) ≡ map (row_of D namespace) (take n es)
  take-map_row zero es = refl
  take-map_row (suc n) [] = refl
  take-map_row (suc n) (e ∷ es) = ap (λ r. row_of D namespace e ∷ r) (take-map_row n es)

  -- On a database that holds a log at ascending positions, with a context that is never done, `read_all`
  -- gives `yield` the first 1000 events of the log, decoded as they were appended, in the order of the
  -- log, until `yield` wants no more, and never an error: the events after the first 1000 are left out,
  -- and it ends as if it had given all.
  pub read_all-Refines :
      {Y : Type 0} (yield : Y → Result StoredEvent → Y × Bool) (d : D.Db) (log : List StoredEvent)
      (ctx : Context) (ctx_done : Bool) (y : Y)
      → Represents D namespace d log
      → IsAscending log
      → ((k : ℕ) → ctx k ≡ false)
      → read_all D store yield d false ctx ctx_done y
        ≡ deliver (with_event yield) 0 0 y (take 1000 log)
  unfolding read_all
  read_all-Refines yield d log ctx ctx_done y rep ascending goes_on =
      rw
        (
          scan_events D namespace d log rep ascending,
          take-map_row 1000 log,
          read_rows-deliver (with_event yield) ctx ctx_done 0 y (take 1000 log) goes_on,
        )
        (report-deliver yield 0 0 y (take 1000 log))

  -- On a database that holds a log of indexable events at ascending positions, with proper query items
  -- (a type or a tag, no tag twice), a priority queue that takes out an item that comes first, and a
  -- context that is never done, `read` gives `yield` the events of the log after the given position that
  -- one of the items selects, in the order of the log or, in reverse, against it, each once and decoded
  -- as it was appended, until `yield` wants no more, the limit is reached, or there are none left, and
  -- never an error; without options it starts at the first event and has no limit.
  pub read-Refines :
      (heap : Heap) {Y : Type 0} (yield : Y → Result StoredEvent → Y × Bool) (d : D.Db)
      (log : List StoredEvent) (ctx : Context) (ctx_done : Bool) (query : Query)
      (opts : Option ReadOptions) (y : Y)
      → Represents D namespace d log
      → IsAscending log
      → ((e : StoredEvent) → In e log → IsIndexable e)
      → All IsProper query.items
      → IsQueue heap
      → ((k : ℕ) → ctx k ≡ false)
      → read D store heap yield d false ctx ctx_done query opts y
        ≡ deliver
            (with_event yield)
            (options_or_default opts).limit
            0
            y
            (selected log query (options_or_default opts))
  unfolding read
  read-Refines heap yield d log ctx ctx_done query opts y rep ascending indexable proper queue
        goes_on =
      rw
        (read_events-Refines D namespace d log rep ascending heap (with_event yield) ctx ctx_done
          query (options_or_default opts) y indexable proper queue goes_on)
        (report-deliver yield (options_or_default opts).limit 0 y
          (selected log query (options_or_default opts)))
