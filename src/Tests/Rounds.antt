-- ===== src/Tests/Rounds.antt =====
-- A command that counts the orders of a cart, and appends one, while another client has appended one.
use fairway.Base.{Bool, ℕ, ◌≡◌, refl, true, false, List, [], ◌∷◌, ◌++◌, none, some, arith, In}
use fairway.Fdb.Memory.{memory, no_data}
use fairway.Dcb.Types.{Event, Query, StoredEvent, Result, ok}
use fairway.Dcb.Append.{validate, stored_from}
use fairway.Dcb.Log.{IsAscending}
use fairway.Dcb.Log.Refinement.{Holds}
use fairway.Dcb.Log.History.{Call, IsHistory, serve, serve_log, history-Holds, empty-Holds}
use fairway.Command.{ReadRecord, track, dispatch, read_events, serialize_events, append_events}
use fairway.Command.Conditions.{log_store}
use fairway.Command.Reads.{IsFresh, log_read}
use fairway.Command.Fresh.{plain, read_events-record, read_events-IsFresh}
use fairway.Command.Exact.{append_events_exact}
use fairway.Command.Store.{fdb_store, fdb_store-log_read}
use fairway.Command.Rounds.{Settles, command-Settles}
use fairway.Tests.Queues.{list_heap, list_heap-IsQueue}
use fairway.Tests.Store.{
  shop, running, ordered, by_cart, first_call, by_cart-IsProper, ordered-IsIndexable,
  nothing_stored, two_calls-IsHistory,
}

abbrev carts : Query
carts = record { items = by_cart ∷ [] }

abbrev as_it_is : Event → Result Event
as_it_is e = ok e

abbrev counts : ℕ → Event → ℕ × Bool
counts n e = (ℕ.suc n, true)

-- The other client.
abbrev third_call : Call
third_call = record { ctx = running; tx = 4; events = ordered ∷ []; conditions = [] }

abbrev old_log : List StoredEvent
old_log = stored_from 3 0 (ordered ∷ ordered ∷ [])

abbrev new_log : List StoredEvent
new_log = stored_from 4 0 (ordered ∷ [])

abbrev carts_read : List ReadRecord
carts_read = record { query = carts; highest_seen_versionstamp = some 196609 } ∷ []

third-IsHistory : IsHistory 0 (first_call ∷ third_call ∷ [])
third-IsHistory = (
  two_calls-IsHistory.0,
  two_calls-IsHistory.1,
  (
    omega arith,
    record { conditions = tt; events = (ordered-IsIndexable, tt); room = omega arith },
    tt,
  ),
)

held_old : (m : ℕ) × Holds memory shop m (serve memory shop no_data (first_call ∷ [])) old_log
unfolding serve_log validate
held_old =
    history-Holds memory shop 0 (first_call ∷ []) no_data []
      (two_calls-IsHistory.0, two_calls-IsHistory.1, tt)
      (empty-Holds memory shop no_data nothing_stored)

held_new :
    (m : ℕ) × Holds memory shop m
      (serve memory shop no_data (first_call ∷ third_call ∷ []))
      (old_log ++ new_log)
unfolding serve_log validate
held_new =
    history-Holds memory shop 0 (first_call ∷ third_call ∷ []) no_data [] third-IsHistory
      (empty-Holds memory shop no_data nothing_stored)

old-IsAscending : IsAscending old_log
old-IsAscending = ((omega arith, tt), (tt, tt))

new-IsAscending : IsAscending (old_log ++ new_log)
new-IsAscending = ((omega arith, (omega arith, tt)), ((omega arith, tt), (tt, tt)))

carts_counted :
    (read_events as_it_is counts
      (fdb_store memory shop list_heap)
      (serve memory shop no_data (first_call ∷ []), held_old.0)
      false
      carts
      none
      0
      []).1
    ≡ ok carts_read
unfolding read_events dispatch track
carts_counted =
    rw
      (fdb_store-log_read memory shop list_heap (serve memory shop no_data (first_call ∷ []))
        held_old.0 old_log carts none held_old.1.represents old-IsAscending held_old.1.indexable
        (by_cart-IsProper, tt) list_heap-IsQueue)
      refl

serialized : serialize_events as_it_is (ordered ∷ []) ≡ ok (ordered ∷ [])
unfolding serialize_events
serialized = refl

ordered_valid : validate (ordered ∷ []) ≡ ok tt
unfolding validate
ordered_valid = refl

-- The cart was ordered again: a conflict.
command-Settles_example :
    Settles memory shop held_new.0
      ((old_log ++ new_log) ++ stored_from held_new.0 0 (ordered ∷ []))
      true
      (append_events as_it_is
        (fdb_store memory shop list_heap)
        (serve memory shop no_data (first_call ∷ third_call ∷ []), held_new.0)
        carts_read
        ordered
        [])
command-Settles_example =
    command-Settles memory shop list_heap list_heap-IsQueue as_it_is as_it_is counts false
      held_old.0 held_new.0 (serve memory shop no_data (first_call ∷ []))
      (serve memory shop no_data (first_call ∷ third_call ∷ [])) old_log new_log carts none 0
      carts_read ordered [] (ordered ∷ []) held_old.1 held_new.1 old-IsAscending new-IsAscending
      (by_cart-IsProper, tt) (plain (λ h e. refl)) carts_counted serialized ordered_valid
      (omega arith)

carts_dispatched :
    (read_events as_it_is counts (log_store log_read 4) old_log false carts none 0 []).1
    ≡ ok carts_read
unfolding read_events dispatch track
carts_dispatched = refl

read_events-record_example :
    (r : ReadRecord) × (carts_read ≡ [] ++ r ∷ []) × (r.query ≡ carts) × IsFresh old_log r
read_events-record_example =
    read_events-record as_it_is counts false 4 old_log carts none 0 [] carts_read
      (plain (λ h e. refl)) old-IsAscending carts_dispatched

carts-IsFresh : (r : ReadRecord) → In r carts_read → IsFresh old_log r
carts-IsFresh =
    read_events-IsFresh as_it_is counts false 4 old_log carts none 0 [] carts_read
      (plain (λ h e. refl)) old-IsAscending (λ r i. elim i [ ]) carts_dispatched

-- Nothing was appended since: the append succeeds.
append_events_exact_example :
    append_events as_it_is (log_store log_read 4) (old_log ++ []) carts_read ordered []
    ≡ ok ((old_log ++ []) ++ stored_from 4 0 (ordered ∷ []))
append_events_exact_example =
    append_events_exact as_it_is 4 old_log [] carts_read ordered [] (ordered ∷ []) serialized
      ordered_valid old-IsAscending carts-IsFresh
