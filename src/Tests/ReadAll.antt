-- ===== src/Tests/ReadAll.antt =====
-- `Read` and `ReadAll` after the calls of Tests.Store.
use fairway.Base.{
  ℕ, ◌≡◌, refl, Bool, true, false, List, [], ◌∷◌, Option, none, some, arith, here, take,
}
use fairway.Fdb.Memory.{memory, no_data}
use fairway.Dcb.Types.{
  QueryItem, Query, ReadOptions, StoredEvent, Result, ok, err, invalid_query, formatted,
  has_no_type_nor_tags,
}
use fairway.Dcb.Append.{validate}
use fairway.Dcb.Index.{new_store}
use fairway.Dcb.Log.{IsAscending}
use fairway.Dcb.Log.Refinement.{Holds}
use fairway.Dcb.Log.History.{Call, serve, serve_log, history-Holds, empty-Holds}
use fairway.Dcb.Read.{ended, aborted, limit_reached}
use fairway.Dcb.Read.Deliver.{deliver}
use fairway.Dcb.Read.Refinement.{selected}
use fairway.Dcb.ReadAll.{with_event, default_options, read, read_all}
use fairway.Dcb.ReadAll.Refinement.{read-Refines, read_all-Refines}
use fairway.Dcb.ReadAll.History.{history-Reads}
use fairway.Dcb.ReadAll.Invalid.{read_invalid}
use fairway.Tests.Queues.{list_heap, list_heap-IsQueue}
use fairway.Tests.Store.{
  shop, running, ordered, by_cart, first_call, second_call, by_cart-IsProper, nothing_stored,
  two_calls-IsHistory,
}

abbrev two_calls : List Call
two_calls = first_call ∷ second_call ∷ []

abbrev carts : Query
carts = record { items = by_cart ∷ [] }

-- The newest order of the cart.
abbrev newest : Option ReadOptions
newest = some (record { limit = 1; after = none; reverse = true })

-- A consumer that keeps what it gets, the newest first.
abbrev keeps : List (Result StoredEvent) → Result StoredEvent → List (Result StoredEvent) × Bool
keeps seen row = (row ∷ seen, true)

history-Reads_example :
    read memory
      (new_store shop)
      list_heap
      keeps
      (serve memory shop no_data two_calls)
      false
      running
      false
      carts
      newest
      []
    ≡ deliver (with_event keeps) 1 0 [] (
        selected
          (serve_log [] two_calls)
          carts
          (record { limit = 1; after = none; reverse = true }))
history-Reads_example =
    history-Reads memory shop two_calls no_data list_heap keeps running false carts newest []
      nothing_stored two_calls-IsHistory (by_cart-IsProper, tt) list_heap-IsQueue (λ k. refl)

-- It is the second event of the first call: the second call failed.
newest_order :
    deliver
      (with_event keeps)
      1
      0
      []
      (selected (serve_log [] two_calls) carts (record { limit = 1; after = none; reverse = true }))
    ≡ (ok (record { event = ordered; position = 196609 }) ∷ [], ended 1)
unfolding deliver serve_log validate limit_reached
newest_order = refl

both_held :
    (m : ℕ) × Holds memory shop m (serve memory shop no_data two_calls) (serve_log [] two_calls)
both_held =
    history-Holds memory shop 0 two_calls no_data [] two_calls-IsHistory
      (empty-Holds memory shop no_data nothing_stored)

both_ascend : IsAscending (serve_log [] two_calls)
unfolding serve_log validate
both_ascend = ((omega arith, tt), (tt, tt))

read-Refines_example :
    read memory
      (new_store shop)
      list_heap
      keeps
      (serve memory shop no_data two_calls)
      false
      running
      false
      carts
      none
      []
    ≡ deliver (with_event keeps) 0 0 [] (selected (serve_log [] two_calls) carts default_options)
read-Refines_example =
    read-Refines memory shop list_heap keeps (serve memory shop no_data two_calls)
      (serve_log [] two_calls) running false carts none [] both_held.1.represents both_ascend
      both_held.1.indexable (by_cart-IsProper, tt) list_heap-IsQueue (λ k. refl)

read_all-Refines_example :
    read_all memory
      (new_store shop)
      keeps
      (serve memory shop no_data two_calls)
      false
      running
      false
      []
    ≡ deliver (with_event keeps) 0 0 [] (take 1000 (serve_log [] two_calls))
read_all-Refines_example =
    read_all-Refines memory shop keeps (serve memory shop no_data two_calls)
      (serve_log [] two_calls) running false [] both_held.1.represents both_ascend (λ k. refl)

abbrev empty_item : QueryItem
empty_item = record { types = []; tags = [] }

empty_item_is : has_no_type_nor_tags empty_item ≡ true
unfolding has_no_type_nor_tags
empty_item_is = refl

read_invalid_example :
    read memory
      (new_store shop)
      list_heap
      keeps
      no_data
      false
      running
      false
      (record { items = empty_item ∷ [] })
      none
      []
    ≡ (err (formatted invalid_query) ∷ [], aborted (formatted invalid_query))
read_invalid_example =
    read_invalid memory (new_store shop) list_heap keeps no_data running false
      (record { items = empty_item ∷ [] }) none [] empty_item (here refl) empty_item_is
