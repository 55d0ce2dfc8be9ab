-- ===== src/Query.antt =====
-- query.go, and the registry of view.go: queries are built with the types of their events, which a read
-- registers, since an event is deserialized by the registered type of its name. `T` is reflect.Type, a
-- value of a type stands for its name and its reflect.Type, and `unmarshal` for JSON.
pub mod Unregistered
use fairway.Base.{ℕ, Bool, true, false, List, [], ◌∷◌, ◌++◌, map, Option, none, some, if◌then◌else◌}
use fairway.Base.Order.{ℕ_ord, list_ord, same}
use fairway.Fdb.{Str}
use fairway.Dcb.Types.{Event, ReadOptions, Result, ok, err, Error, formatted, unknown_event_type}
use fairway.Dcb.Types
use fairway.Command.{DcbStore, ReadRecord}
use fairway.Command

-- A map from names to types; the first entry of a name counts.
abbrev pub TypeMap : Type 0 → Type 0
TypeMap T = List (Str × T)

pub record QueryItem (T : Type 0) : Type 0 where
  pub type_list : List Str
  pub tag_list : List Str
  pub type_registry : TypeMap T

pub record Query (T : Type 0) : Type 0 where
  pub items : List (QueryItem T)
  pub opts : Option ReadOptions

module _ {T : Type 0} where
  unfoldable pub lookup : Str → TypeMap T → Option T
  lookup name [] = none
  lookup name ((key, t) ∷ entries) = if same key name then some t else lookup name entries

  unfoldable pub new_query_item : QueryItem T
  new_query_item = record { type_list = []; tag_list = []; type_registry = [] }

  unfoldable pub types : QueryItem T → List (Str × T) → QueryItem T
  types q [] = q
  types q ((name, t) ∷ events) =
      types
        (record {
          type_list = q.type_list ++ name ∷ [];
          tag_list = q.tag_list;
          type_registry = (name, t) ∷ q.type_registry;
        })
        events

  unfoldable pub tags : QueryItem T → List Str → QueryItem T
  tags q ts = record {
    type_list = q.type_list;
    tag_list = q.tag_list ++ ts;
    type_registry = q.type_registry;
  }

  unfoldable pub item_to_dcb : QueryItem T → fairway.Dcb.Types.QueryItem
  item_to_dcb q = record { types = q.type_list; tags = q.tag_list }

  unfoldable pub query_items : List (QueryItem T) → Query T
  query_items items = record { items = items; opts = none }

  unfoldable pub with_options : Query T → ReadOptions → Query T
  with_options q opts = record { items = q.items; opts = some opts }

  unfoldable pub to_dcb : Query T → fairway.Dcb.Types.Query
  unfolding item_to_dcb
  to_dcb q = record { items = map item_to_dcb q.items }

  -- maps.Copy(r.types, types)
  unfoldable pub register_types : TypeMap T → TypeMap T → TypeMap T
  register_types registry new = new ++ registry

  -- `for _, item := range query.items`
  unfoldable pub register_items : TypeMap T → List (QueryItem T) → TypeMap T
  unfolding register_types
  register_items registry [] = registry
  register_items registry (item ∷ items) =
      register_items (register_types registry item.type_registry) items

  module _ {E : Type 0} (unmarshal : T → List ℕ → Result E) where
    unfoldable pub deserialize : TypeMap T → Event → Result E
    unfolding lookup
    deserialize registry e = elim (lookup e.event_type registry) [
      | none ↦ err (formatted unknown_event_type)
      | some t ↦ unmarshal t e.payload
    ]

    -- ReadEvents of commandReadAppender, with the registry after it
    unfoldable pub read_query :
        {H : Type 0} (handler : H → E → H × Bool) (store : DcbStore)
        → store.S
        → Bool
        → Query T
        → H
        → TypeMap T
        → List ReadRecord
        → TypeMap T × (H × Result (List ReadRecord))
    unfolding register_items deserialize to_dcb
    read_query handler store s ctx_done query h registry reads =
        let all = register_items registry query.items in
        (
          all,
          fairway.Command.read_events (deserialize all) handler store s ctx_done (to_dcb query)
              query.opts h reads,
        )
