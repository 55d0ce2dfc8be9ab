-- ===== src/Dcb/Append.antt =====
-- dcb/append.go. A transaction is one step on the database; it commits at the transaction version
-- `tx`, which the database puts into the incomplete versionstamps.
use fairway.Base.{
  ℕ, suc, ◌%◌, Bool, true, false, List, [], ◌∷◌, ◌++◌, map, Option, if◌then◌else◌, any,
}
use fairway.Fdb.{Str, Tuple, Stamp, text, bytes, stamp, plain, nested, Database, KeyRange}
use fairway.Dcb.Types.{
  Versionstamp, of_stamp, Event, QueryItem, AppendCondition, StoredEvent, Result, ok, err, ◌>>=◌,
  Context, is_empty, empty_events, missing_type, context_done, append_condition_failed,
}
use fairway.Dcb.Subsets.{generate_all_subsets}
use fairway.Dcb.Index.{FdbStore, events_in_tag_subspace, build_query_ranges}

unfoldable pub validate : List Event → Result (Unit {0})
validate [] = ok tt
validate (e ∷ es) =
    let rest = validate es in if is_empty e.event_type then err missing_type else rest

module _ (D : Database) where
  open D use {Db, scan}

  -- GetRange with Limit 1 advances if the range holds a key.
  unfoldable pub some_row : Db → KeyRange → Bool
  some_row d r = elim (scan d r) [ [] ↦ false | row ∷ rows ↦ true ]

module _ (D : Database) (s : FdbStore) where
  open D use {Db, set, pack}

  -- tuple.Tuple{event.Type, tagsTuple, event.Data}.Pack()
  unfoldable pub event_value : Event → List ℕ
  event_value e =
      pack (plain (text e.event_type) ∷ nested (map text e.tags) ∷ plain (bytes e.payload) ∷ [])

  abbrev pub tag_key : List Str → Str → Stamp → Tuple
  tag_key subset event_type vs =
      s.by_tag ++ (map text subset ++ text events_in_tag_subspace ∷ text event_type ∷ stamp vs ∷ [])

  -- `for _, subset := range subsets`
  unfoldable pub write_tag_keys : Str → Stamp → List (List Str) → Db → Db
  write_tag_keys event_type vs [] d = d
  write_tag_keys event_type vs (subset ∷ subsets) d =
      write_tag_keys event_type vs subsets (set d (tag_key subset event_type vs) [])

  unfoldable pub append_single : Db → Event → Stamp → Db
  unfolding event_value write_tag_keys
  append_single d e vs =
      let d₁ = set d (s.events ++ stamp vs ∷ []) (event_value e) in
      let d₂ = set d₁ (s.by_type ++ text e.event_type ∷ stamp vs ∷ []) [] in
      write_tag_keys e.event_type vs (generate_all_subsets e.tags) d₂

  -- `for i, event := range events`, from `i`, with uint16(i) as the user version.
  unfoldable pub append_each : ℕ → ℕ → List Event → Db → Db
  unfolding append_single
  append_each tx i [] d = d
  append_each tx i (e ∷ es) d =
      append_each tx (suc i) es
        (append_single d e (record { transaction_version = tx; user_version = i % 65536 }))

  unfoldable pub query_item_exists : Db → QueryItem → Option Versionstamp → Result Bool
  unfolding some_row
  query_item_exists d item after = do
    ranges ← build_query_ranges D s d item after
    ok (any (some_row D d) ranges)

  unfoldable pub query_exists : Db → List QueryItem → Option Versionstamp → Result Bool
  unfolding query_item_exists
  query_exists d [] after = ok false
  query_exists d (item ∷ items) after = query_item_exists d item after >>= λ exists.
      let rest = query_exists d items after in if exists then ok true else rest

  -- The goroutines of the error group, in the order in which they end: `Wait` returns the first error.
  unfoldable pub check_conditions : Db → List AppendCondition → Result (Unit {0})
  unfolding query_exists
  check_conditions d [] = ok tt
  check_conditions d (c ∷ cs) = query_exists d c.query.items c.after >>= λ exists.
      let rest = check_conditions d cs in if exists then err append_condition_failed else rest

  unfoldable pub append : Db → Context → ℕ → List Event → List AppendCondition → Result Db
  unfolding append_each check_conditions validate
  append d ctx tx events conditions =
      if ctx 0
      then err context_done
      else if is_empty events
      then err empty_events
      else validate events >>= λ _.
          if ctx 1
          then err context_done
          else check_conditions d conditions >>= λ _. ok (append_each tx 0 events d)

-- The events as they are stored by a transaction, from index `i`.
abbrev pub stored_from : ℕ → ℕ → List Event → List StoredEvent
stored_from tx i [] = []
stored_from tx i (e ∷ es) =
    record {
      event = e;
      position = of_stamp (record { transaction_version = tx; user_version = i % 65536 });
    }
    ∷ stored_from tx (suc i) es
