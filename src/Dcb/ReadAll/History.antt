-- ===== src/Dcb/ReadAll/History.antt =====
-- Reads after a history of appends: `Append` and `Read` together.
use fairway.Base.{
  ℕ, suc, ◌+◌, ◌*◌, ◌≤◌, ◌<◌, ◌≡◌, refl, sym, subst, Bool, false, Option, inl, inr, List, [], ◌∷◌,
  ◌++◌, none, arith, In, here, there, In-append, All, All-of_In, Pairwise-append, length,
}
use fairway.Fdb.{Str, Tuple, text, Database}
use fairway.Dcb.Types.{Event, StoredEvent, Query, ReadOptions, Result, ok, err, Context}
use fairway.Dcb.Index.{new_store}
use fairway.Dcb.Append.{stored_from}
use fairway.Dcb.Log.{IsAscending}
use fairway.Dcb.Log.Items.{IsProper}
use fairway.Dcb.Log.Refinement.{append_log}
use fairway.Dcb.Log.History.{
  Call, IsHistory, IsProperCall, serve, serve_log, or_before, append_log-ok, history-Holds,
  empty-Holds,
}
use fairway.Dcb.Read.{Heap}
use fairway.Dcb.Read.Queue.{IsQueue}
use fairway.Dcb.Read.Deliver.{deliver}
use fairway.Dcb.Read.Refinement.{selected}
use fairway.Dcb.ReadAll.{with_event, options_or_default, read}
use fairway.Dcb.ReadAll.Refinement.{read-Refines}

-- The events of one batch have the positions of its transaction from the i-th on, below those of the next transaction.
stored_from-bounds :
    (tx i : ℕ) (es : List Event) (e : StoredEvent)
    → i + length es ≤ 65536
    → In e (stored_from tx i es)
    → (tx * 65536 + i ≤ e.position) × (e.position < suc tx * 65536)
stored_from-bounds tx i [] e room j = elim j [ ]
stored_from-bounds tx i (x ∷ es) e room (here h) = rw h (omega arith, omega arith)
stored_from-bounds tx i (x ∷ es) e room (there j) =
    let (low, high) = stored_from-bounds tx (suc i) es e (omega arith) j in
    (omega (arith, low), high)

stored_from-IsAscending :
    (tx i : ℕ) (es : List Event) → i + length es ≤ 65536 → IsAscending (stored_from tx i es)
stored_from-IsAscending tx i [] room = tt
stored_from-IsAscending tx i (x ∷ es) room = (
  All-of_In _ (stored_from tx (suc i) es)
      λ e j. omega (arith, (stored_from-bounds tx (suc i) es e (omega arith) j).0),
  stored_from-IsAscending tx (suc i) es (omega arith),
)

-- A log that ascends, and is below the positions of a transaction.
pub record IsLogBelow (tx : ℕ) (log : List StoredEvent) : Type 0 where
  pub ascending : IsAscending log
  pub below : (e : StoredEvent) → In e log → e.position < tx * 65536

pub IsLogBelow-append :
    (tx : ℕ) (log : List StoredEvent) (es : List Event)
    → length es ≤ 65536
    → IsLogBelow tx log
    → IsLogBelow (suc tx) (log ++ stored_from tx 0 es)
IsLogBelow-append tx log es room h = record {
  ascending =
      Pairwise-append _ log (stored_from tx 0 es) h.ascending
        (stored_from-IsAscending tx 0 es (omega (arith, room)))
        λ a b i j.
          omega (arith, h.below a i, (stored_from-bounds tx 0 es b (omega (arith, room)) j).0);
  below = λ e i. elim (In-append log (stored_from tx 0 es) i) [
    | inl old ↦ omega (arith, h.below e old)
    | inr new ↦ (stored_from-bounds tx 0 es e (omega (arith, room)) new).1
  ];
}

IsLogBelow-call :
    (c : Call) (log : List StoredEvent) (n : ℕ)
    → n ≤ c.tx
    → IsProperCall c
    → IsLogBelow n log
    → IsLogBelow (suc c.tx) (or_before log (append_log log c.ctx c.tx c.events c.conditions))
IsLogBelow-call c log n le p h = at _ (append_log-ok log c)
  where
    at :
        (r : Result (List StoredEvent))
        → ((l : List StoredEvent) → r ≡ ok l → l ≡ log ++ stored_from c.tx 0 c.events)
        → IsLogBelow (suc c.tx) (or_before log r)
    at (err e) grown = record {
      ascending = h.ascending;
      below = λ e i. omega (arith, le, h.below e i);
    }
    at (ok l) grown = subst (IsLogBelow (suc c.tx)) (sym (grown l refl)) (
        IsLogBelow-append c.tx log c.events p.room
          (record { ascending = h.ascending; below = λ e i. omega (arith, le, h.below e i) }))

serve_log-IsAscending :
    (n : ℕ) (calls : List Call) (log : List StoredEvent)
    → IsHistory n calls
    → IsLogBelow n log
    → IsAscending (serve_log log calls)
unfolding serve_log
serve_log-IsAscending n [] log hist h = h.ascending
serve_log-IsAscending n (c ∷ cs) log hist h =
    serve_log-IsAscending (suc c.tx) cs _ hist.2 (IsLogBelow-call c log n hist.0 hist.1 h)

-- From an empty namespace, after appends at increasing transaction versions, conditional or not, failing
-- or not, with proper condition items, fewer than 63 tags an event, none of them `_e`, and 65536 events
-- at most a batch, a read with proper items, a priority queue that takes out an item that comes first
-- and a context that is never done gives `yield` exactly the events that the same appends put in the
-- log and that the query selects, in the order of the read, until `yield` wants no more or the limit is
-- reached, and never an error.
pub history-Reads :
    (D : Database) (namespace : Str) (calls : List Call) (d : D.Db) (heap : Heap) {Y : Type 0}
    (yield : Y → Result StoredEvent → Y × Bool) (ctx : Context) (ctx_done : Bool) (query : Query)
    (opts : Option ReadOptions) (y : Y)
    → ((k : Tuple) → D.get d (text namespace ∷ k) ≡ none)
    → IsHistory 0 calls
    → All IsProper query.items
    → IsQueue heap
    → ((k : ℕ) → ctx k ≡ false)
    → read D
        (new_store namespace)
        heap
        yield
        (serve D namespace d calls)
        false
        ctx
        ctx_done
        query
        opts
        y
      ≡ deliver
          (with_event yield)
          (options_or_default opts).limit
          0
          y
          (selected (serve_log [] calls) query (options_or_default opts))
history-Reads D namespace calls d heap yield ctx ctx_done query opts y fresh hist proper queue
      goes_on =
    let (m, holds) =
      history-Holds D namespace 0 calls d [] hist (empty-Holds D namespace d fresh) in
    read-Refines D namespace heap yield (serve D namespace d calls) (serve_log [] calls) ctx
      ctx_done query opts y holds.represents
      (serve_log-IsAscending 0 calls [] hist (record { ascending = tt; below = λ e i. elim i [ ] }))
      holds.indexable proper queue goes_on
