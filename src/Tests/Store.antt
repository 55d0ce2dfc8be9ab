-- ===== src/Tests/Store.antt =====
-- Appends and queries of dcb/dcb.go and dcb/append.go on concrete events.
use fairway.Base.{
  there, here, ℕ, ◌≡◌, ◌≢◌, ◌↔◌, refl, false, List, [], ◌∷◌, none, arith, In, any, codes,
}
use fairway.Fdb.{Str, Tuple, text}
use fairway.Fdb.Memory.{memory, no_data, get-no_data}
use fairway.Dcb.Types.{Event, QueryItem, ok, Context, has_no_type_nor_tags}
use fairway.Dcb.Subsets.{generate_all_subsets, sort_tags, Chosen}
use fairway.Dcb.Subsets.Exact.{generate_all_subsets-exact, generate_all_subsets_overflow}
use fairway.Dcb.Index.{new_store}
use fairway.Dcb.Append.{append, query_exists}
use fairway.Dcb.Append.{validate}
use fairway.Dcb.Log.{Represents, selects_any}
use fairway.Dcb.Log.Items.{IsProper}
use fairway.Dcb.Log.Queries.{query_exists_exact}
use fairway.Dcb.Log.Refinement.{append_log, append-Refines, Refines}
use fairway.Dcb.Log.History.{
  Call, IsHistory, IsIndexableEvent, serve, serve_log, history-Holds, history-Represents,
  empty-Holds,
}

abbrev pub shop : Str
shop = codes "shop"

abbrev pub running : Context
running k = false

-- An event with two tags, out of order.
abbrev pub ordered : Event
ordered = record {
  event_type = codes "Ordered";
  tags = codes "user" ∷ codes "cart" ∷ [];
  payload = 7 ∷ [];
}

abbrev pub by_cart : QueryItem
by_cart = record { types = []; tags = codes "cart" ∷ [] }

abbrev pub first_call : Call
first_call = record { ctx = running; tx = 3; events = ordered ∷ ordered ∷ []; conditions = [] }

-- The second call fails: the cart was ordered already.
abbrev pub second_call : Call
second_call = record {
  ctx = running;
  tx = 4;
  events = ordered ∷ [];
  conditions = record { query = record { items = by_cart ∷ [] }; after = none } ∷ [];
}

subsets_listed :
    generate_all_subsets (codes "c" ∷ codes "a" ∷ codes "b" ∷ [])
    ≡ (codes "a" ∷ [])
      ∷ (codes "b" ∷ [])
      ∷ (codes "a" ∷ codes "b" ∷ [])
      ∷ (codes "c" ∷ [])
      ∷ (codes "a" ∷ codes "c" ∷ [])
      ∷ (codes "b" ∷ codes "c" ∷ [])
      ∷ (codes "a" ∷ codes "b" ∷ codes "c" ∷ [])
      ∷ []
unfolding generate_all_subsets sort_tags
subsets_listed = refl

pub by_cart-IsProper : IsProper by_cart
unfolding has_no_type_nor_tags
by_cart-IsProper = record { not_empty = refl; distinct = (tt, tt) }

pub nothing_stored : (k : Tuple) → memory.get no_data (text shop ∷ k) ≡ none
nothing_stored k = get-no_data (text shop ∷ k)

pub ordered-IsIndexable : IsIndexableEvent ordered
ordered-IsIndexable = (refl, omega arith)

pub two_calls-IsHistory : IsHistory 0 (first_call ∷ second_call ∷ [])
two_calls-IsHistory = (
  omega arith,
  record {
    conditions = tt;
    events = (ordered-IsIndexable, (ordered-IsIndexable, tt));
    room = omega arith;
  },
  (
    omega arith,
    record {
      conditions = ((by_cart-IsProper, tt), tt);
      events = (ordered-IsIndexable, tt);
      room = omega arith;
    },
    tt,
  ),
)

generate_all_subsets-exact_example :
    In (codes "a" ∷ codes "b" ∷ []) (generate_all_subsets (codes "b" ∷ codes "a" ∷ [])) ↔ (
      ((codes "a" ∷ codes "b" ∷ []) ≢ [])
      × Chosen (codes "a" ∷ codes "b" ∷ []) (sort_tags (codes "b" ∷ codes "a" ∷ [])))
generate_all_subsets-exact_example =
    generate_all_subsets-exact (codes "b" ∷ codes "a" ∷ []) (codes "a" ∷ codes "b" ∷ [])
      (omega arith)

abbrev many : ℕ → List Str
many ℕ.zero = []
many (ℕ.suc n) = [] ∷ many n

generate_all_subsets_overflow_example : generate_all_subsets (many 64) ≡ []
generate_all_subsets_overflow_example = generate_all_subsets_overflow (many 64) (omega arith)

history-Represents_example :
    Represents memory shop
      (serve memory shop no_data (first_call ∷ second_call ∷ []))
      (serve_log [] (first_call ∷ second_call ∷ []))
history-Represents_example =
    history-Represents memory shop (first_call ∷ second_call ∷ []) no_data nothing_stored
      two_calls-IsHistory

append-Refines_example :
    Refines memory shop
      (append memory (new_store shop) no_data running 0 (ordered ∷ []) [])
      (append_log [] running 0 (ordered ∷ []) [])
append-Refines_example =
    append-Refines memory shop 0 no_data [] running (ordered ∷ []) []
      (empty-Holds memory shop no_data nothing_stored) tt (omega arith)

second_stored :
    In
      (record { event = ordered; position = 196609 })
      (serve_log [] (first_call ∷ second_call ∷ []))
unfolding serve_log validate
second_stored = there (here refl)

-- The history's log holds the cart's order, and so does the database.
query_exists_exact_example :
    query_exists memory
      (new_store shop)
      (serve memory shop no_data (first_call ∷ []))
      (by_cart ∷ [])
      none
    ≡ ok (any (selects_any (by_cart ∷ []) none) (serve_log [] (first_call ∷ [])))
query_exists_exact_example =
    query_exists_exact memory shop (serve memory shop no_data (first_call ∷ []))
      (serve_log [] (first_call ∷ []))
      (history-Holds memory shop 0 (first_call ∷ []) no_data []
        (two_calls-IsHistory.0, two_calls-IsHistory.1, tt)
        (empty-Holds memory shop no_data nothing_stored)).1.represents
      (history-Holds memory shop 0 (first_call ∷ []) no_data []
        (two_calls-IsHistory.0, two_calls-IsHistory.1, tt)
        (empty-Holds memory shop no_data nothing_stored)).1.indexable
      none (by_cart ∷ []) (by_cart-IsProper, tt)
