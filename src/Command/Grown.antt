-- ===== src/Command/Grown.antt =====
-- A read of command.go on a log that has grown since, with no conflict.
use fairway.Base.{
  ℕ, ◌≡◌, refl, sym, ap, ◌∙◌, inl, inr, Bool, false, List, ◌∷◌, ◌++◌, map, Option, none, arith, any,
}
use fairway.Dcb.Types.{Event, Query, ReadOptions, StoredEvent, Result, ok, Result-cases}
use fairway.Dcb.Log.{IsAscending, selects_any}
use fairway.Dcb.Log.Refinement.{append_log, violates}
use fairway.Dcb.ReadAll.{options_or_default}
use fairway.Command.{ReadRecord, read_events, serialize_events, append_events, condition_of}
use fairway.Command.Conditions.{log_store}
use fairway.Command.Reads.{IsFresh, log_read}
use fairway.Command.Exact.{violates-fresh}
use fairway.Command.Unchanged.{log_read-grown}

-- An append that succeeds meets no conflict.
pub no_conflict :
    {E : Type 0} (serialize : E → Result Event) (tx : ℕ) (log l : List StoredEvent)
    (reads : List ReadRecord) (event : E) (remaining : List E)
    → append_events serialize (log_store log_read tx) log reads event remaining ≡ ok l
    → any (violates log) (map condition_of reads) ≡ false
unfolding append_events
no_conflict serialize tx log l reads event remaining h =
    elim (Result-cases (serialize_events serialize (event ∷ remaining))) [
      | inr (failure, f) ↦ cc (rw f at h)
      | inl (events, s) ↦ free events (rw s at h)
    ]
  where
    free :
        (events : List Event)
        → append_log log (λ k. false) tx events (map condition_of reads) ≡ ok l
        → any (violates log) (map condition_of reads) ≡ false
    free events g = ground arith

-- A read of a log with the same rows gives the same.
read_events-same :
    {E H : Type 0} (deserialize : Event → Result E) (handler : H → E → H × Bool) (ctx_done : Bool)
    (tx : ℕ) (log log' : List StoredEvent) (query : Query) (opts : Option ReadOptions) (h : H)
    (reads : List ReadRecord)
    → log_read log' query opts ≡ log_read log query opts
    → read_events deserialize handler (log_store log_read tx) log' ctx_done query opts h reads
      ≡ read_events deserialize handler (log_store log_read tx) log ctx_done query opts h reads
unfolding read_events
read_events-same deserialize handler ctx_done tx log log' query opts h reads e = rw e refl

-- A read that looks at all, and whose record meets no conflict on the grown log, is the same on the grown log.
pub read_events-grown :
    {E H : Type 0} (deserialize : Event → Result E) (handler : H → E → H × Bool) (ctx_done : Bool)
    (tx : ℕ) (old new : List StoredEvent) (query : Query) (opts : Option ReadOptions) (h : H)
    (reads : List ReadRecord) (r : ReadRecord)
    → (options_or_default opts).after ≡ none
    → IsAscending (old ++ new)
    → IsFresh old r
    → r.query ≡ query
    → violates (old ++ new) (condition_of r) ≡ false
    → read_events deserialize handler
        (log_store log_read tx)
        (old ++ new)
        ctx_done
        query
        opts
        h
        reads
      ≡ read_events deserialize handler (log_store log_read tx) old ctx_done query opts h reads
read_events-grown deserialize handler ctx_done tx old new query opts h reads r start ascending fresh
      of_query free =
    read_events-same deserialize handler ctx_done tx old (old ++ new) query opts h reads (
      log_read-grown old new query opts start (
        ap (λ (q : Query). any (selects_any q.items none) new) (sym of_query)
        ∙ sym (violates-fresh old new ascending r fresh)
        ∙ free))
