-- ===== src/Command/Rounds.antt =====
-- A command on the event store: it reads, other clients append, and it appends on the condition that
-- nothing that it read has changed.
use fairway.Base.{
  ℕ, suc, ◌≤◌, ◌≡◌, refl, sym, ap, subst, ◌∙◌, Bool, true, false, List, [], ◌∷◌, ◌++◌, map, Option,
  none, In, here, there, All, any, arith, length, if◌then◌else◌,
}
use fairway.Fdb.{Str, Database}
use fairway.Dcb.Types.{
  Event, Query, ReadOptions, StoredEvent, Result, ok, err, ◌>>=◌, append_condition_failed,
}
use fairway.Dcb.Index.{new_store}
use fairway.Dcb.Append.{append, validate, stored_from}
use fairway.Dcb.Log.{Represents, IsAscending, selects_any}
use fairway.Dcb.Log.Items.{IsProper}
use fairway.Dcb.Log.Refinement.{append_log, append-Refines, Refines, Holds, IsProperCondition}
use fairway.Dcb.Read.{Heap}
use fairway.Dcb.Read.Queue.{IsQueue}
use fairway.Command.{ReadRecord, read_events, serialize_events, append_events, condition_of}
use fairway.Command.Reads.{IsFresh}
use fairway.Command.Fresh.{IsWhole, read_events-record}
use fairway.Command.Exact.{touched, append_events_exact}
use fairway.Command.Store.{fdb_store, never_done, fdb_store-log_read}

touched-one :
    (r : ReadRecord) (new : List StoredEvent)
    → touched (r ∷ []) new ≡ any (selects_any r.query.items none) new
touched-one r new = ground arith

module _ (D : Database) (namespace : Str) where
  -- How an append ends: with a conflict, or with a database that holds the log with the events.
  abbrev pub Settles : ℕ → List StoredEvent → Bool → Result (D.Db × ℕ) → Type 0
  Settles tx log true r = r ≡ err append_condition_failed
  Settles tx log false r = (d : D.Db) × (r ≡ ok (d, suc tx)) × Represents D namespace d log

  Settles-Refines :
      (tx : ℕ) (log : List StoredEvent) (conflict : Bool) (r : Result D.Db)
      → Refines D namespace r (if conflict then err append_condition_failed else ok log)
      → Settles tx log conflict (r >>= λ d. ok (d, suc tx))
  Settles-Refines tx log true (ok d) h = absurd h
  Settles-Refines tx log true (err e) h = ap err h
  Settles-Refines tx log false (ok d) h = (d, refl, h)
  Settles-Refines tx log false (err e) h = absurd h

module _ (D : Database) (namespace : Str) (heap : Heap) (queue : IsQueue heap) where
  -- A read through the interface records one read, which is fresh on the log.
  read_events-fdb :
      {E H : Type 0} (deserialize : Event → Result E) (handler : H → E → H × Bool) (ctx_done : Bool)
      (tx : ℕ) (d : D.Db) (log : List StoredEvent) (query : Query) (opts : Option ReadOptions)
      (h : H) (reads : List ReadRecord)
      → Holds D namespace tx d log
      → IsAscending log
      → All IsProper query.items
      → IsWhole handler opts
      → (read_events deserialize handler
          (fdb_store D namespace heap)
          (d, tx)
          ctx_done
          query
          opts
          h
          []).1
        ≡ ok reads
      → (r : ReadRecord) × (reads ≡ r ∷ []) × (r.query ≡ query) × IsFresh log r
  unfolding read_events
  read_events-fdb deserialize handler ctx_done tx d log query opts h reads holds ascending proper
        whole done =
      let rows =
        fdb_store-log_read D namespace heap d tx log query opts holds.represents ascending
          holds.indexable proper queue in
      read_events-record deserialize handler ctx_done tx log query opts h [] reads whole ascending
        (rw rows at done)

  append_events-Settles :
      {E : Type 0} (serialize : E → Result Event) (tx : ℕ) (d : D.Db) (old new : List StoredEvent)
      (reads : List ReadRecord) (event : E) (remaining : List E) (events : List Event)
      → Holds D namespace tx d (old ++ new)
      → IsAscending (old ++ new)
      → ((r : ReadRecord) → In r reads → IsFresh old r)
      → All IsProperCondition (map condition_of reads)
      → serialize_events serialize (event ∷ remaining) ≡ ok events
      → validate events ≡ ok tt
      → length events ≤ 65536
      → Settles D namespace tx
          ((old ++ new) ++ stored_from tx 0 events)
          (touched reads new)
          (append_events serialize (fdb_store D namespace heap) (d, tx) reads event remaining)
  unfolding append_events
  append_events-Settles serialize tx d old new reads event remaining events holds ascending fresh
        proper ser valid room =
      let exact =
        append_events_exact serialize tx old new reads event remaining events ser valid ascending
          fresh in
      let outcome : append_log (old ++ new) never_done tx events (map condition_of reads) ≡ (
          if touched reads new
          then err append_condition_failed
          else ok ((old ++ new) ++ stored_from tx 0 events)) =
        (rw ser at exact) in
      rw ser (
        Settles-Refines D namespace tx _ (touched reads new) _ (
          subst
            (Refines D namespace
              (append D (new_store namespace) d never_done tx events (map condition_of reads)))
            outcome
            (append-Refines D namespace tx d (old ++ new) never_done events (map condition_of reads)
              holds proper room)))

  -- A command reads a query on a database that holds a log, looking at all that the query selects, and
  -- then appends events that serialize and are valid, 65536 at most, on a database that holds the log with
  -- what others have appended since, at higher positions. Each event of that longer log has fewer than 63
  -- tags, none of them `_e`, and was stored before the transaction of the append. The command fails with the append condition exactly if
  -- the query selects an event that was appended since; else the database then holds the longer log with
  -- the command's events. Query items are proper (a type or a tag, no tag twice), and the priority queue
  -- of the reads takes out an item that comes first.
  pub command-Settles :
      {E H : Type 0} (deserialize : Event → Result E) (serialize : E → Result Event)
      (handler : H → E → H × Bool) (ctx_done : Bool) (tx tx' : ℕ) (d d' : D.Db)
      (old new : List StoredEvent) (query : Query) (opts : Option ReadOptions) (h : H)
      (reads : List ReadRecord) (event : E) (remaining : List E) (events : List Event)
      → Holds D namespace tx d old
      → Holds D namespace tx' d' (old ++ new)
      → IsAscending old
      → IsAscending (old ++ new)
      → All IsProper query.items
      → IsWhole handler opts
      → (read_events deserialize handler
          (fdb_store D namespace heap)
          (d, tx)
          ctx_done
          query
          opts
          h
          []).1
        ≡ ok reads
      → serialize_events serialize (event ∷ remaining) ≡ ok events
      → validate events ≡ ok tt
      → length events ≤ 65536
      → Settles D namespace tx'
          ((old ++ new) ++ stored_from tx' 0 events)
          (any (selects_any query.items none) new)
          (append_events serialize (fdb_store D namespace heap) (d', tx') reads event remaining)
  command-Settles deserialize serialize handler ctx_done tx tx' d d' old new query opts h reads
        event remaining events holds holds' ascending ascending' proper whole done ser valid room =
      let (r, is, of_query, fresh) =
        read_events-fdb deserialize handler ctx_done tx d old query opts h reads holds ascending
          proper whole done in
      let one : touched reads new ≡ any (selects_any query.items none) new =
        ap (λ rs. touched rs new) is
        ∙ touched-one r new
        ∙ ap (λ (q : Query). any (selects_any q.items none) new) of_query in
      subst
        (λ b.
          Settles D namespace tx' ((old ++ new) ++ stored_from tx' 0 events) b
            (append_events serialize (fdb_store D namespace heap) (d', tx') reads event remaining))
        one
        (append_events-Settles serialize tx' d' old new reads event remaining events holds'
          ascending'
          (λ x i. elim (subst (In x) is i) [
            | here at ↦ subst (IsFresh old) (sym at) fresh
            | there none_left ↦ elim none_left [ ]
          ])
          (subst (λ rs. All IsProperCondition (map condition_of rs)) (sym is)
            (subst (λ q. All IsProper q.items) (sym of_query) proper, tt))
          ser valid room)
