-- ===== src/Dcb/Read/Refinement.antt =====
-- `readEvents` against the log: the events that a query selects, in the order of the read.
use fairway.Base.{
  ℕ, suc, ◌≡◌, inr, Bool, false, List, none, arith, In, All, Pairwise-filter, In-filter,
  In-filter_of, filter,
}
use fairway.Fdb.{Str, Database}
use fairway.Dcb.Types.{Query, ReadOptions, StoredEvent, Context}
use fairway.Dcb.Index.{new_store}
use fairway.Dcb.Decode.{fetch_event}
use fairway.Dcb.Decode.Fetched.{fetch_event-In}
use fairway.Dcb.Log.{Represents, IsIndexable, selects_any, IsAscending}
use fairway.Dcb.Log.Items.{IsProper}
use fairway.Dcb.Read.{RangeIterator, Heap, size, read_events}
use fairway.Dcb.Read.Queue.{Ahead, IsQueue}
use fairway.Dcb.Read.Deliver.{deliver, Pending, merge-deliver}
use fairway.Dcb.Read.Iterators.{
  directed, In-directed, In-directed_of, Pairwise-directed, Gathers, all_iterators-Gathers,
}

-- The events of a log that a query selects, in the direction of the read.
abbrev pub selected : List StoredEvent → Query → ReadOptions → List StoredEvent
selected log query opts = filter (selects_any query.items opts.after) (directed opts.reverse log)

module _ (D : Database) (namespace : Str) (d : D.Db) (log : List StoredEvent)
    (rep : Represents D namespace d log) (ascending : IsAscending log) where
  -- Iterators that hold the positions of the picked events have the picked events to come.
  Gathers-Pending :
      (ctx_done reverse : Bool) (items : List RangeIterator) (picks : StoredEvent → Bool)
      → Gathers D d log reverse items picks
      → Pending reverse
          (fetch_event D (new_store namespace) d ctx_done)
          none
          items
          (filter picks (directed reverse log))
  Gathers-Pending ctx_done reverse items picks g = record {
    ordered = g.ordered;
    held = λ v h.
        let (e, i, q, at) = g.sound v h in
        inr (e, In-filter_of picks _ (In-directed_of reverse log i) q, at);
    covered = λ e i. let (j, q) = In-filter picks _ i in g.complete e (In-directed reverse log j) q;
    in_order =
        Pairwise-filter (λ a b. Ahead reverse a.position b.position) picks _
          (Pairwise-directed (λ e. e.position) reverse log ascending);
    later = λ e q i was. cc was;
    fetched = λ e i.
        fetch_event-In D namespace d log ctx_done e rep
          (In-directed reverse log (In-filter picks _ i).0);
  }

  -- On a database that holds a log of indexable events at ascending positions, with proper query items
  -- (a type or a tag, no tag twice), a priority queue that takes out an item that comes first, and a
  -- context that is never done, a read gives `yield` the events of the log after the given position that
  -- one of the items selects, in the order of the log or, in reverse, against it, each once and decoded
  -- as it was appended, and stops where `yield` wants no more, at the limit, or at the end of them; it
  -- ends with their count.
  pub read_events-Refines :
      (heap : Heap) {Y : Type 0} (yield : Y → StoredEvent → Y × Bool) (ctx : Context)
      (ctx_done : Bool) (query : Query) (opts : ReadOptions) (y : Y)
      → ((e : StoredEvent) → In e log → IsIndexable e)
      → All IsProper query.items
      → IsQueue heap
      → ((k : ℕ) → ctx k ≡ false)
      → read_events D (new_store namespace) heap yield d ctx ctx_done query opts y
        ≡ deliver yield opts.limit 0 y (selected log query opts)
  unfolding read_events
  read_events-Refines heap yield ctx ctx_done query opts y indexable proper queue goes_on =
      let (items, made, gathers) =
        all_iterators-Gathers D namespace d log rep indexable ctx_done opts.reverse opts.after
          query.items proper in
      rw (read_events, made)
        (merge-deliver heap yield (fetch_event D (new_store namespace) d ctx_done) opts.limit
          opts.reverse ctx queue goes_on (suc (size items)) none 0 y items (selected log query opts)
          (Gathers-Pending ctx_done opts.reverse items (selects_any query.items opts.after) gathers)
          (omega arith))
