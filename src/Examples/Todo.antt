-- ===== src/Examples/Todo.antt =====
-- examples/todolist: its events, the commands of create_list.go and add_item.go, and the view of
-- show_list.go. The time of an event stands in its JSON.
pub mod Unique
pub mod View
use fairway.Base.{
  ℕ, ◌+◌, ◌%◌, ◌^◌, Bool, true, false, List, [], ◌∷◌, ◌++◌, Option, none, codes, if◌then◌else◌,
}
use fairway.Fdb.{Str}
use fairway.Dcb.Types.{Query, Result, ok, err, Error}
use fairway.Command.{DcbStore, view_read_events}
use fairway.Command.Plans.{
  Format, Plan, Decision, append, refuse, Outcome, appended, unchanged, refused, failed,
  from_dcb_event,
}
use fairway.Examples.Http.{Response, problem, value, write_header, encode}

pub data TodoEvent : Type 0 where
  list_created : Str → Str → TodoEvent
  item_created : Str → Str → Str → TodoEvent

abbrev pub list_tag_prefix : Str → Str
list_tag_prefix list_id = codes "list_id:" ++ list_id

abbrev pub item_tag_prefix : Str → Str
item_tag_prefix item_id = codes "item_id:" ++ item_id

abbrev pub tags_of : TodoEvent → List Str
tags_of (list_created list_id name) = list_tag_prefix list_id ∷ []
tags_of (item_created id list_id text) = list_tag_prefix list_id ∷ item_tag_prefix id ∷ []

-- reflect.TypeOf(e.Data).Name()
abbrev pub type_of : TodoEvent → Str
type_of (list_created list_id name) = codes "ListCreated"
type_of (item_created id list_id text) = codes "ItemCreated"

abbrev pub todo_format :
    (TodoEvent → Result (List ℕ)) → (Str → List ℕ → Result TodoEvent) → Format TodoEvent
todo_format marshal unmarshal = record {
  type_of = type_of;
  tags_of = tags_of;
  marshal = marshal;
  unmarshal = unmarshal;
}

-- listAlreadyExistsErr and itemAlreadyExistsErr
pub data AlreadyExists : Type 0 where
  list_already_exists item_already_exists : AlreadyExists

pub record CreateList : Type 0 where
  pub list_id : Str
  pub name : Str

-- The handler of the read of createlist
unfoldable pub note_list : Bool → TodoEvent → Bool × Bool
note_list exists (list_created list_id name) = (true, false)
note_list exists (item_created id list_id text) = (exists, true)

unfoldable pub create_list : CreateList → Plan TodoEvent AlreadyExists
unfolding note_list
create_list cmd = record {
  H = Bool;
  query = record {
    items =
        (record { types = codes "ListCreated" ∷ []; tags = list_tag_prefix cmd.list_id ∷ [] }) ∷ [];
  };
  start = false;
  handler = note_list;
  decide = λ exists.
      if exists then refuse list_already_exists else append (list_created cmd.list_id cmd.name) [];
}

pub record AddItem : Type 0 where
  pub list_id : Str
  pub item_id : Str
  pub text : Str

-- The handler of the read of additem
unfoldable pub note_item : Bool → TodoEvent → Bool × Bool
note_item exists (item_created id list_id text) = (true, false)
note_item exists (list_created list_id name) = (exists, true)

unfoldable pub add_item : AddItem → Plan TodoEvent AlreadyExists
unfolding note_item
add_item cmd = record {
  H = Bool;
  query = record {
    items =
        (record { types = codes "ItemCreated" ∷ []; tags = item_tag_prefix cmd.item_id ∷ [] }) ∷ [];
  };
  start = false;
  handler = note_item;
  decide = λ exists.
      if exists
      then refuse item_already_exists
      else append (item_created cmd.item_id cmd.list_id cmd.text) [];
}

-- The end of both handlers: errors.Is finds the command's own error.
unfoldable pub answer : {S B : Type 0} → Outcome S AlreadyExists → Response B → Response B
unfolding write_header encode
answer (appended s) w = write_header 201 w
answer unchanged w = write_header 201 w
answer (refused x) w = write_header 409 w
answer (failed e) w = encode (problem e) (write_header 500 w)

-- The handler of POST /api/lists/{listId}: `parsed` is what JsonParse made of the body, and `run` is
-- RunPure.
unfoldable pub create_list_handler :
    {S B : Type 0}
    → (CreateList → Outcome S AlreadyExists)
    → Str
    → Result Str
    → Response B
    → Response B
unfolding write_header encode answer
create_list_handler run list_id (err e) w = encode (problem e) (write_header 400 w)
create_list_handler run list_id (ok name) w =
    answer (run (record { list_id = list_id; name = name })) w

-- The handler of POST /api/lists/{listId}/items/{itemId}
unfoldable pub add_item_handler :
    {S B : Type 0}
    → (AddItem → Outcome S AlreadyExists)
    → Str
    → Str
    → Result Str
    → Response B
    → Response B
unfolding write_header encode answer
add_item_handler run list_id item_id (err e) w = encode (problem e) (write_header 400 w)
add_item_handler run list_id item_id (ok text) w =
    answer (run (record { list_id = list_id; item_id = item_id; text = text })) w

-- The response of GET /api/lists/{listId}; its count is a uint.
pub record ListView : Type 0 where
  pub id : Str
  pub name : Str
  pub items_count : ℕ

abbrev pub list_query : Str → Query
list_query list_id = record {
  items =
      (record {
        types = codes "ListCreated" ∷ codes "ItemCreated" ∷ [];
        tags = list_tag_prefix list_id ∷ [];
      })
      ∷ [];
}

unfoldable pub see : ListView → TodoEvent → ListView × Bool
see v (list_created list_id name) = (record v { id = list_id; name = name }, true)
see v (item_created id list_id text) =
    (record v { items_count = (v.items_count + 1) % 2 ^ 64 }, true)

abbrev pub empty_view : ListView
empty_view = record { id = []; name = []; items_count = 0 }

-- After an error the handler does not return.
unfoldable pub show_list_handler :
    Format TodoEvent
    → (store : DcbStore) → store.S
    → Bool
    → Str
    → Response ListView
    → Response ListView
unfolding view_read_events see write_header encode
show_list_handler f store s ctx_done list_id w =
    let (v, outcome) =
      view_read_events (from_dcb_event f) see store s ctx_done (list_query list_id) empty_view in
    encode (value v) (
      write_header 200
        (elim outcome [ ok done ↦ w | err e ↦ encode (problem e) (write_header 500 w) ]))
