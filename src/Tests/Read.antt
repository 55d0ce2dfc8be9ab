-- ===== src/Tests/Read.antt =====
-- Reads with a priority queue kept as a list.
use fairway.Base.{
  ℕ, ◌≡◌, ◌≢◌, ◌≤◌, refl, false, List, [], ◌∷◌, Option, none, some, arith, codes, All-In, All-of_In,
  ltb,
}
use fairway.Fdb.Memory.{memory, no_data}
use fairway.Tests.Queues.{list_heap, list_heap-IsQueue}
use fairway.Tests.Store.{running}
use fairway.Dcb.Types.{Query, ReadOptions, StoredEvent, Result, ok}
use fairway.Dcb.Index.{new_store}
use fairway.Dcb.Read.{RangeIterator, spent, less, read_events}
use fairway.Dcb.Read.Merge.{TakesOne, read_events_ends}
use fairway.Dcb.Read.Queue.{Popped}
use fairway.Dcb.Read.Order.{collects, PopsLeast}

list_heap-TakesOne : TakesOne list_heap
list_heap-TakesOne reverse items i rest h = (list_heap-IsQueue.pops reverse items i rest h).sizes

abbrev any_order : Query
any_order = record { items = (record { types = codes "Ordered" ∷ []; tags = [] }) ∷ [] }

abbrev forward : ReadOptions
forward = record { limit = 0; after = none; reverse = false }

read_events_ends_example :
    (read_events memory
      (new_store (codes "shop"))
      list_heap
      collects
      no_data
      running
      false
      any_order
      forward
      []).1
    ≢ spent
read_events_ends_example =
    read_events_ends memory (new_store (codes "shop")) list_heap collects no_data running false
      any_order forward [] list_heap-TakesOne

list_heap-PopsLeast : PopsLeast list_heap
unfolding less
list_heap-PopsLeast items i rest h =
    let popped : Popped false items i rest = list_heap-IsQueue.pops false items i rest h in
    (
      λ P k.
          (All-In P items k popped.was, All-of_In P rest λ j l. All-In P items k (popped.left j l)),
      All-of_In _ rest λ j l. at_least i j (popped.least j l),
    )
  where
    at_least : (i j : RangeIterator) → ltb j.current i.current ≡ false → i.current ≤ j.current
    at_least i j h = ground (arith, h)

abbrev numbered : ℕ → StoredEvent
numbered v = record {
  event = record { event_type = codes "Ordered"; tags = []; payload = [] };
  position = v;
}

abbrev fetches : ℕ → Result (Option StoredEvent)
fetches v = ok (some (numbered v))

abbrev two_iterators : List RangeIterator
two_iterators =
    record { current = 3; upcoming = 5 ∷ [] } ∷ record { current = 4; upcoming = 5 ∷ [] } ∷ []

ok_some_injective : {x y : StoredEvent} → ok (some x) ≡ ok (some y) → x ≡ y
ok_some_injective h = cc

fetches_position : (v : ℕ) (e : StoredEvent) → fetches v ≡ ok (some e) → e.position ≡ v
fetches_position v e h = rw (← ok_some_injective h) refl
