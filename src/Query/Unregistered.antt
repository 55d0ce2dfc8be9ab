-- ===== src/Query/Unregistered.antt =====
-- Which events a read can deserialize: those of the types that its query names, and no others.
use fairway.Base.{
  ℕ, ◌≡◌, refl, sym, subst, ◌∙◌, inl, inr, Bool, true, false, ◌||◌, Bool-cases, List, [], ◌∷◌, ◌++◌,
  map, none, some, arith, In, here, there, In-append, In-map, All,
}
use fairway.Base.Order.{ℕ_ord, list_ord, same, same_self}
use fairway.Fdb.{Str}
use fairway.Dcb.Types.{Event, StoredEvent, Result, ok, err, formatted, unknown_event_type}
use fairway.Command.{DcbStore, dispatch, read_events}
use fairway.Query.{
  TypeMap, QueryItem, Query, lookup, new_query_item, types, tags, item_to_dcb, to_dcb,
  register_types, register_items, deserialize, read_query,
}

module _ {T : Type 0} where
  abbrev pub known : Str → TypeMap T → Bool
  known name registry = elim (lookup name registry) [ none ↦ false | some t ↦ true ]

  known-append :
      (name : Str) (xs ys : TypeMap T) → known name (xs ++ ys) ≡ (known name xs || known name ys)
  unfolding lookup
  known-append name [] ys = refl
  known-append name ((key, t) ∷ xs) ys = elim (Bool-cases (same key name)) [
    | inl is ↦ rw (known, lookup, is) refl
    | inr other ↦ rw (known, lookup, other) (known-append name xs ys)
  ]

  -- The types of an item are in its registry.
  abbrev IsRegistered : QueryItem T → Type 0
  IsRegistered q = (name : Str) → In name q.type_list → known name q.type_registry ≡ true

  types-IsRegistered :
      (events : List (Str × T)) (q : QueryItem T) → IsRegistered q → IsRegistered (types q events)
  unfolding types lookup
  types-IsRegistered [] q h = h
  types-IsRegistered ((new, t) ∷ events) q h = types-IsRegistered events _ λ name i.
      elim (In-append q.type_list (new ∷ []) i) [
        | inl old ↦ kept name old
        | inr last ↦ elim last [
          | here is ↦ subst (λ n. known n ((new, t) ∷ q.type_registry) ≡ true) (sym is) added
          | there none_left ↦ elim none_left [ ]
        ]
      ]
    where
      added : known new ((new, t) ∷ q.type_registry) ≡ true
      added = rw (known, lookup, same_self new) refl

      kept : (name : Str) → In name q.type_list → known name ((new, t) ∷ q.type_registry) ≡ true
      kept name old =
          known-append name ((new, t) ∷ []) q.type_registry ∙ rw (h name old) (ground arith)

  -- An item as it is built: its types, then its tags.
  abbrev pub built : List (Str × T) × List Str → QueryItem T
  built p = tags (types new_query_item p.0) p.1

  built-IsRegistered : (p : List (Str × T) × List Str) → IsRegistered (built p)
  unfolding tags new_query_item
  built-IsRegistered p = types-IsRegistered p.0 new_query_item (λ name i. elim i [ ])

  register_items-known :
      (name : Str) (registry : TypeMap T) (items : List (QueryItem T))
      → known name registry ≡ true
      → known name (register_items registry items) ≡ true
  unfolding register_items register_types
  register_items-known name registry [] h = h
  register_items-known name registry (item ∷ items) h =
      register_items-known name (item.type_registry ++ registry) items
        (known-append name item.type_registry registry ∙ rw h (ground arith))

  register_items-item :
      (name : Str) (registry : TypeMap T) (items : List (QueryItem T)) (item : QueryItem T)
      → In item items
      → known name item.type_registry ≡ true
      → known name (register_items registry items) ≡ true
  unfolding register_items register_types
  register_items-item name registry [] item i h = elim i [ ]
  register_items-item name registry (x ∷ items) item (here is) h =
      register_items-known name (x.type_registry ++ registry) items (
        known-append name x.type_registry registry
        ∙ rw (subst (λ (q : QueryItem T). known name q.type_registry ≡ true) is h) (ground arith))
  register_items-item name registry (x ∷ items) item (there i) h =
      register_items-item name (x.type_registry ++ registry) items item i h

  -- A read of a query of built items registers each type that the query asks the store for.
  pub register_items_complete :
      (registry : TypeMap T) (parts : List (List (Str × T) × List Str))
      (item : fairway.Dcb.Types.QueryItem) (name : Str)
      → In item (to_dcb (record { items = map built parts; opts = none })).items
      → In name item.types
      → known name (register_items registry (map built parts)) ≡ true
  unfolding to_dcb item_to_dcb
  register_items_complete registry parts item name i j =
      let (q, k, is) = In-map item_to_dcb (map built parts) i in
      let (p, l, made) = In-map built parts k in
      let named : In name q.type_list =
        subst (λ (x : fairway.Dcb.Types.QueryItem). In name x.types) is j in
      register_items-item name registry (map built parts) q k (
        subst (λ (x : QueryItem T). In name x.type_list → known name x.type_registry ≡ true)
          (sym made) (built-IsRegistered p name) named)

  register_items-none :
      (items : List (QueryItem T))
      → All (λ item. item.type_registry ≡ []) items
      → register_items [] items ≡ []
  unfolding register_items register_types
  register_items-none [] h = refl
  register_items-none (item ∷ items) h = rw h.0 (register_items-none items h.1)

  -- If no item of the query names a type, the first event that the store yields to a new appender ends the
  -- read with an error, and the handler is not called: tags alone select events that cannot be read.
  pub read_query_unregistered :
      {E H : Type 0} (unmarshal : T → List ℕ → Result E) (handler : H → E → H × Bool)
      (store : DcbStore) (s : store.S) (ctx_done : Bool) (query : Query T) (h : H) (e : StoredEvent)
      (rows : List (Result StoredEvent))
      → All (λ item. item.type_registry ≡ []) query.items
      → store.read s (to_dcb query) query.opts ≡ ok e ∷ rows
      → (read_query unmarshal handler store s ctx_done query h [] []).1
        ≡ (h, err (formatted (formatted unknown_event_type)))
  unfolding read_query read_events dispatch deserialize lookup
  read_query_unregistered unmarshal handler store s ctx_done query h e rows untyped found =
      rw (register_items-none query.items untyped, found) refl
