-- ===== src/Tests/Queries.antt =====
-- Queries by types and tags, and by tags alone. A type is its number.
use fairway.Base.{ℕ, ◌≡◌, refl, Bool, true, false, List, [], ◌∷◌, map, none, codes, In, here}
use fairway.Fdb.{Str}
use fairway.Dcb.Types.{StoredEvent, Result, ok, err, formatted, unknown_event_type}
use fairway.Command.Conditions.{log_store}
use fairway.Query.{Query, item_to_dcb, to_dcb, types, tags, new_query_item, read_query}
use fairway.Query.Unregistered.{built, read_query_unregistered}
use fairway.Tests.Store.{ordered}

abbrev parts : List (List (Str × ℕ) × List Str)
parts = ((codes "Ordered", 1) ∷ (codes "Paid", 2) ∷ [], codes "cart" ∷ []) ∷ []

-- The query that is built asks the store for both types.
asked :
    (to_dcb (record { items = map built parts; opts = none })).items
    ≡ (record { types = codes "Ordered" ∷ codes "Paid" ∷ []; tags = codes "cart" ∷ [] }) ∷ []
unfolding to_dcb item_to_dcb types tags new_query_item
asked = refl

paid_asked :
    In
      (record { types = codes "Ordered" ∷ codes "Paid" ∷ []; tags = codes "cart" ∷ [] })
      (to_dcb (record { items = map built parts; opts = none })).items
unfolding to_dcb item_to_dcb types tags new_query_item
paid_asked = here refl

abbrev by_tag : Query ℕ
by_tag = record {
  items = (record { type_list = []; tag_list = codes "cart" ∷ []; type_registry = [] }) ∷ [];
  opts = none;
}

abbrev one_row : List (Result StoredEvent)
one_row = ok (record { event = ordered; position = 7 }) ∷ []

abbrev counts : ℕ → List ℕ → ℕ × Bool
counts n e = (ℕ.suc n, true)

read_query_unregistered_example :
    (read_query
      (λ t payload. ok payload)
      counts
      (log_store (λ log q o. one_row) 9)
      []
      false
      by_tag
      0
      []
      []).1
    ≡ (0, err (formatted (formatted unknown_event_type)))
read_query_unregistered_example =
    read_query_unregistered (λ t payload. ok payload) counts (log_store (λ log q o. one_row) 9) []
      false by_tag 0 (record { event = ordered; position = 7 }) [] (refl, tt) refl
