-- ===== src/Dcb/ReadAll/Rows.antt =====
-- The rows of the subspace of events against the log.
use fairway.Base.{
  ℕ, ◌<◌, ◌≡◌, refl, sym, ap, subst, true, List, [], ◌∷◌, ◌++◌, map, none, some, arith, In, here,
  In-map, In-map_of, Pairwise-unique, Pairwise-map, Pairwise-of_map,
}
use fairway.Fdb.{element_ord, Str, Tuple, stamp, Database, Beneath}
use fairway.Dcb.Types.{Versionstamp, to_stamp, StoredEvent}
use fairway.Dcb.Index.{FdbStore, new_store, range_of, extract_versionstamp}
use fairway.Dcb.Append.{event_value}
use fairway.Dcb.Log.{Represents, IsAscending}
use fairway.Dcb.Log.Keys.{Written, in_events, in_types, in_tags, writes-cases, kind}
use fairway.Dcb.Log.Rows.{row_of_get}
use fairway.Dcb.Log.Ranges.{Reads, stamps-rise, extract_versionstamp-append}

module _ (D : Database) (namespace : Str) where
  abbrev store : FdbStore
  store = new_store namespace

  -- The row of an event in the subspace of events.
  unfoldable pub row_of : StoredEvent → Tuple × List ℕ
  row_of e = (store.events ++ stamp (to_stamp e.position) ∷ [], event_value D store e.event)

  module _ (d : D.Db) (log : List StoredEvent) (rep : Represents D namespace d log) where
    -- A key beneath the subspace of events was written for an event.
    events_key :
        (k : Tuple) (v : List ℕ) (e : StoredEvent)
        → Beneath store.events k
        → Written D namespace e k v
        → (k, v) ≡ row_of e
    unfolding kind row_of
    events_key k v e (x, r, h) (in_events h' w) = rw (h', w) refl
    events_key k v e (x, r, h) (in_types h' w) = absurd (omega (arith, ap kind h, ap kind h'))
    events_key k v e (x, r, h) (in_tags s i h' w) = absurd (omega (arith, ap kind h, ap kind h'))

    scan_events-row :
        (row : Tuple × List ℕ)
        → In row (D.scan d (D.range_keys store.events))
        → In row (map row_of log)
    scan_events-row row i =
        let (g, b, u) = D.scan_sound d _ row.0 row.1 i in
        let under : Beneath store.events row.0 = D.within_sound store.events row.0 b u in
        let (_, _, shape) = under in
        let (e, j, w) = rep.sound _ row.1 (subst (λ x. D.get d x ≡ some row.1) shape g) in
        let wrote : Written D namespace e row.0 row.1 =
          subst (λ x. Written D namespace e x row.1) (sym shape)
            (writes-cases D namespace e _ row.1 w) in
        subst (λ r. In r (map row_of log)) (sym (events_key row.0 row.1 e under wrote))
          (In-map_of row_of log j)

    row-scan_events :
        (row : Tuple × List ℕ)
        → In row (map row_of log)
        → In row (D.scan d (D.range_keys store.events))
    unfolding range_of row_of
    row-scan_events row i =
        let (e, j, is) = In-map row_of log i in
        subst (λ r. In r (D.scan d (D.range_keys store.events))) (sym is)
          (row_of_get D d store.events none e.position _ (rep.complete e _ _ j (here refl)) refl)

    position_of : Tuple × List ℕ → Versionstamp
    position_of row = extract_versionstamp row.0

    row_of-position : (e : StoredEvent) → position_of (row_of e) ≡ e.position
    unfolding position_of row_of
    row_of-position e = extract_versionstamp-append store.events e.position

    events-Reads : Reads D d log store.events (D.range_keys store.events) (λ e. true)
    unfolding row_of
    events-Reads = record {
      sound = λ k v i.
          let (e, j, is) = In-map row_of log (scan_events-row (k, v) i) in
          (e, j, refl, ap (λ (row : Tuple × List ℕ). row.0) is);
      complete = λ e i q.
          (event_value D store e.event, row-scan_events (row_of e) (In-map_of row_of log i));
    }

    -- A scan of the subspace of events gives the log.
    pub scan_events : IsAscending log → D.scan d (D.range_keys store.events) ≡ map row_of log
    unfolding position_of
    scan_events ascending =
        Pairwise-unique (λ a b. position_of a < position_of b) (λ a b l m. omega arith)
          (D.scan d (D.range_keys store.events)) (map row_of log)
          (Pairwise-of_map ◌<◌ position_of _
            (stamps-rise D d log store.events (D.range_keys store.events) (λ e. true) events-Reads))
          (Pairwise-map (λ a b. position_of a < position_of b) row_of
            (λ a b. a.position < b.position) (λ a b l. rw (row_of-position a, row_of-position b) l)
            log ascending)
          scan_events-row row-scan_events
