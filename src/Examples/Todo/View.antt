-- ===== src/Examples/Todo/View.antt =====
-- What GET /api/lists/{listId} answers.
use native.Mathlib.Nat.{add-zero}
use fairway.Base.{
  ℕ, suc, ◌+◌, ◌%◌, ◌^◌, ◌<◌, ◌≡◌, sym, ap, ◌∙◌, inl, inr, Bool, false, Bool-cases, List, [], ◌∷◌,
  none, some, arith, filter, ◌||◌, if◌then◌else◌,
}
use fairway.Base.Order.{ℕ_ord, list_ord, same, same_iff}
use fairway.Fdb.{Str}
use fairway.Dcb.Types.{StoredEvent, Result}
use fairway.Command.{view_read_events}
use fairway.Command.Conditions.{log_store}
use fairway.Command.Reads.{log_read}
use fairway.Command.Plans.{Format, RoundTrips, wanted, feed}
use fairway.Command.Plans.Written.{Written, filter-Written, dispatch-feed}
use fairway.Examples.Http.{no_response, value, write_header, encode}
use fairway.Examples.Todo.{
  TodoEvent, list_created, item_created, ListView, list_query, see, empty_view, show_list_handler,
  todo_format,
}

-- The name of the list's last creation, and the number of its items.
abbrev pub name_of : Str → Str → List TodoEvent → Str
name_of list_id name [] = name
name_of list_id name (list_created l n ∷ bs) =
    name_of list_id (if same list_id l then n else name) bs
name_of list_id name (item_created i l t ∷ bs) = name_of list_id name bs

abbrev pub is_created : Str → List TodoEvent → Bool
is_created list_id [] = false
is_created list_id (list_created l n ∷ bs) = same list_id l || is_created list_id bs
is_created list_id (item_created i l t ∷ bs) = is_created list_id bs

abbrev pub items_of : Str → List TodoEvent → ℕ
items_of list_id [] = 0
items_of list_id (list_created l n ∷ bs) = items_of list_id bs
items_of list_id (item_created i l t ∷ bs) =
    if same list_id l then suc (items_of list_id bs) else items_of list_id bs

module _ (marshal : TodoEvent → Result (List ℕ)) (unmarshal : Str → List ℕ → Result TodoEvent)
    (list_id : Str) where
  abbrev format : Format TodoEvent
  format = todo_format marshal unmarshal

  either_way : (c : Bool) (l : Str) → list_id ≡ l → (if c then list_id else l) ≡ list_id
  either_way c l e = rw e (ground arith)

  feed-see :
      (bs : List TodoEvent) (v : ListView)
      → v.items_count + items_of list_id bs < 2 ^ 64
      → feed see v (filter (wanted format (list_query list_id)) bs) ≡ record {
        id = if is_created list_id bs then list_id else v.id;
        name = name_of list_id v.name bs;
        items_count = v.items_count + items_of list_id bs;
      }
  unfolding feed see
  feed-see [] v room =
      λ i. record { id = v.id; name = v.name; items_count = sym (add-zero v.items_count) i }
  feed-see (list_created l n ∷ bs) v room = elim (Bool-cases (same list_id l)) [
    | inr s ↦ rw s (feed-see bs v room)
    | inl s ↦ rw s (
        feed-see bs (record v { id = l; name = n }) room
        ∙ ap
            (λ (x : Str). record {
              id = x;
              name = name_of list_id n bs;
              items_count = v.items_count + items_of list_id bs;
            })
            (either_way (is_created list_id bs) l ((same_iff list_id l).0 s)))
  ]
  feed-see (item_created j l t ∷ bs) v room = elim (Bool-cases (same list_id l)) [
    | inr s ↦ rw s (feed-see bs v (rw s at room))
    | inl s ↦
        let below : v.items_count + suc (items_of list_id bs) < 2 ^ 64 = rw s at room in
        let counted : (v.items_count + 1) % 2 ^ 64 ≡ v.items_count + 1 = omega (arith, below) in
        rw (s, counted)
          (feed-see bs (record v { items_count = v.items_count + 1 }) (omega (arith, below))
            ∙ ap
                (λ (k : ℕ). record {
                  id = if is_created list_id bs then list_id else v.id;
                  name = name_of list_id v.name bs;
                  items_count = k;
                })
                (omega arith))
  ]

  -- If JSON round-trips and the log holds events of the application, with fewer than 2^64 items of the
  -- list, GET /api/lists/{listId} answers with status 200 and one value: the list's id if the list was
  -- created and else the empty text, the name of its last creation or the empty text, and the number of
  -- items that were created in it.
  pub show_list_exact :
      (ctx_done : Bool) (tx : ℕ) (log : List StoredEvent) (bs : List TodoEvent)
      → RoundTrips format
      → Written format log bs
      → items_of list_id bs < 2 ^ 64
      → show_list_handler format (log_store log_read tx) log ctx_done list_id no_response ≡ record {
        status = some 200;
        body =
            value (record {
              id = if is_created list_id bs then list_id else [];
              name = name_of list_id [] bs;
              items_count = items_of list_id bs;
            })
            ∷ [];
      }
  unfolding show_list_handler view_read_events write_header encode
  show_list_exact ctx_done tx log bs round_trips written room =
      let (highest, h) =
        dispatch-feed format round_trips see ctx_done none empty_view _ _
          (filter-Written format (list_query list_id) log bs written) in
      rw (h, feed-see bs empty_view (omega (arith, room)))
        (ap
          (λ (k : ℕ). record {
            status = some 200;
            body =
                value (record {
                  id = if is_created list_id bs then list_id else [];
                  name = name_of list_id [] bs;
                  items_count = k;
                })
                ∷ [];
          })
          (omega arith))
