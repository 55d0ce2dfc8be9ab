-- ===== src/Tests/Todo.antt =====
-- Lists and items of examples/todolist: another client's list between a read and its append.
use fairway.Base.{
  ℕ, ◌≡◌, ◌≢◌, refl, false, List, [], ◌∷◌, ◌++◌, some, arith, codes, Pairwise, if◌then◌else◌,
}
use fairway.Base.Order.{ℕ_ord, list_ord, same}
use fairway.Fdb.{Str}
use fairway.Dcb.Types.{StoredEvent, Result, ok, err, no_data, ok_injective}
use fairway.Dcb.Append.{validate, stored_from}
use fairway.Command.{track, dispatch, read_events, serialize_events, append_events}
use fairway.Command.Conditions.{log_store}
use fairway.Command.Reads.{log_read}
use fairway.Command.Plans.{Format, RoundTrips, appended, conclude, to_dcb_event, run_plan, decision}
use fairway.Command.Plans.Written.{Written}
use fairway.Command.Plans.Alone.{outcome_of, run_plan_exact}
use fairway.Command.Plans.Sequential.{Reaches, Sequential, empty, command, Reaches-Sequential}
use fairway.Examples.Http.{no_response, value}
use fairway.Examples.Todo.{
  TodoEvent, list_created, item_created, CreateList, AddItem, note_list, note_item, create_list,
  add_item, todo_format, type_of, tags_of, show_list_handler,
}
use fairway.Examples.Todo.Unique.{
  created, creates_list, adds_item, plan, todo-IsWellMade, todo-GivesUp, ids_unique,
}
use fairway.Examples.Todo.View.{show_list_exact}
use fairway.Tests.Fields.{pack, unpack, unpack-pack}

abbrev fields_of : TodoEvent → List Str
fields_of (list_created l n) = l ∷ n ∷ []
fields_of (item_created i l t) = i ∷ l ∷ t ∷ []

abbrev marshal : TodoEvent → Result (List ℕ)
marshal e = ok (pack (fields_of e))

abbrev list_from : List Str → Result TodoEvent
list_from (l ∷ n ∷ []) = ok (list_created l n)
list_from _ = err no_data

abbrev item_from : List Str → Result TodoEvent
item_from (i ∷ l ∷ t ∷ []) = ok (item_created i l t)
item_from _ = err no_data

abbrev unmarshal : Str → List ℕ → Result TodoEvent
unmarshal t bytes =
    if same t (codes "ListCreated") then list_from (unpack 2 bytes) else item_from (unpack 3 bytes)

abbrev format : Format TodoEvent
format = todo_format marshal unmarshal

format-RoundTrips : RoundTrips format
format-RoundTrips (list_created l n) payload h =
    rw (← ok_injective h, unpack-pack (l ∷ n ∷ [])) refl
format-RoundTrips (item_created i l t) payload h =
    rw (← ok_injective h, unpack-pack (i ∷ l ∷ t ∷ [])) refl

abbrev stored : ℕ → TodoEvent → List StoredEvent
stored tx e =
    stored_from tx 0
      ((record { event_type = type_of e; tags = tags_of e; payload = pack (fields_of e) }) ∷ [])

abbrev food : TodoEvent
food = list_created (codes "food") (codes "Food")

abbrev bread : TodoEvent
bread = item_created (codes "bread") (codes "food") (codes "a loaf")

abbrev make_food : CreateList
make_food = record { list_id = codes "food"; name = codes "Food" }

abbrev buy_bread : AddItem
buy_bread = record { list_id = codes "food"; item_id = codes "bread"; text = codes "a loaf" }

abbrev log : List StoredEvent
log = stored 1 food ++ stored 2 bread

food_alone :
    run_plan format (create_list make_food) (log_store log_read 1) false [] []
    ≡ appended (stored 1 food)
unfolding run_plan create_list note_list read_events dispatch track append_events serialize_events
    to_dcb_event conclude validate
food_alone = refl

-- The read for the bread came before the list.
bread_after_food :
    run_plan format (add_item buy_bread) (log_store log_read 2) false [] (stored 1 food)
    ≡ appended log
unfolding run_plan add_item note_item read_events dispatch track append_events serialize_events
    to_dcb_event conclude validate
bread_after_food = refl

log-Reaches : Reaches format plan (λ e. false) 3 log
log-Reaches =
    command (adds_item buy_bread) 2 false [] (stored 1 food) log
      (command (creates_list make_food) 1 false [] [] (stored 1 food) empty (omega arith) refl
        food_alone)
      (omega arith) refl bread_after_food

Reaches-Sequential_example :
    (bs : List TodoEvent) × Written format log bs × Sequential format plan (λ e. false) bs
Reaches-Sequential_example =
    Reaches-Sequential format plan (λ e. false)
      (todo-IsWellMade marshal unmarshal format-RoundTrips) {n = 3} {log = log} log-Reaches

ids_unique_example :
    (bs : List TodoEvent) × Written format log bs × Pairwise (λ a b. created a ≢ created b) bs
ids_unique_example = ids_unique marshal unmarshal {n = 3} {log = log} format-RoundTrips log-Reaches

log-Written : Written format log (food ∷ bread ∷ [])
unfolding to_dcb_event
log-Written = (refl, (refl, tt))

show_list_exact_example :
    show_list_handler format (log_store log_read 3) log false (codes "food") no_response ≡ record {
      status = some 200;
      body = value (record { id = codes "food"; name = codes "Food"; items_count = 1 }) ∷ [];
    }
show_list_exact_example =
    show_list_exact marshal unmarshal (codes "food") false 3 log (food ∷ bread ∷ [])
      format-RoundTrips log-Written (omega arith)

run_plan_exact_example :
    run_plan format (add_item buy_bread) (log_store log_read 3) false log log
    ≡ outcome_of format 3 log (decision format (add_item buy_bread) (food ∷ bread ∷ []))
run_plan_exact_example =
    run_plan_exact format (add_item buy_bread) false 3 log (food ∷ bread ∷ []) format-RoundTrips
      log-Written (todo-GivesUp marshal unmarshal (adds_item buy_bread))
      ((omega arith, tt), (tt, tt))
