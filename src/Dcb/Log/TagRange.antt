-- ===== src/Dcb/Log/TagRange.antt =====
-- A range of the tag tree against the log.
use mathlib.Core.List.{append_assoc}
use fairway.Base.{
  ℕ, ◌≡◌, ◌≢◌, refl, sym, ap, subst, ◌∙◌, Bool, true, false, ◌&&◌, inl, inr, List, [], ◌∷◌, ◌++◌,
  map, Option, some, arith, In, there, In-map_of, &&_true, length, All-of_In,
}
use fairway.Base.Order.{ℕ_ord, list_ord, same, same_iff, same_self}
use fairway.Base.Sort.{Distinct, In-sort, length-sort}
use fairway.Fdb.{Str, Tuple, text, stamp, Database, Beneath}
use fairway.Dcb.Types.{Versionstamp, to_stamp, StoredEvent, has}
use fairway.Dcb.Subsets.{generate_all_subsets, sort_tags, Chosen}
use fairway.Dcb.Subsets.Exact.{generate_all_subsets-exact}
use fairway.Dcb.Subsets.Cover.{Chosen-sort_iff, Chosen-In}
use fairway.Dcb.Index.{
  FdbStore, new_store, range_of, events_in_tag_subspace, events_subspace_of,
  discover_types_in_tag_subspace,
}
use fairway.Dcb.Log.{Represents, is_after, has_all, IsIndexable}
use fairway.Dcb.Log.Keys.{Written, in_events, in_types, in_tags, writes-cases, kind}
use fairway.Dcb.Log.Paths.{IsPlain, path_unique, append-cancel_left, type_of_key-append}
use fairway.Dcb.Log.Rows.{
  has-In, has_all_iff, row_of_get, range_of-Beneath, range_of-starts, collect_types-In,
}
use fairway.Dcb.Log.Ranges.{Reads}

-- The subsets of an event without the separator among its tags have no separator either.
subset-IsPlain :
    (tags subset : List Str)
    → has tags events_in_tag_subspace ≡ false
    → Chosen subset (sort_tags tags)
    → IsPlain subset
unfolding sort_tags
subset-IsPlain tags subset clean c =
    All-of_In (λ t. t ≢ events_in_tag_subspace) subset
      λ a i e. cc (
        clean,
        (has-In tags events_in_tag_subspace).1
            (subst (λ x. In x tags) e (In-sort tags (Chosen-In c i))),
      )

sort_tags-ne : (q : List Str) → q ≢ [] → sort_tags q ≢ []
unfolding sort_tags
sort_tags-ne [] ne e = ne refl
sort_tags-ne (t ∷ q) ne e = omega (arith, ap length e, length-sort (t ∷ q))

module _ (D : Database) (namespace : Str) (d : D.Db) (log : List StoredEvent)
    (rep : Represents D namespace d log) (indexable : (e : StoredEvent) → In e log → IsIndexable e)
    (q : List Str) (distinct : Distinct q) (tagged : q ≢ []) where
  open D use {get, scan, starts, stops, range_keys, scan_sound, scan_complete, within_complete}

  abbrev pub store : FdbStore
  store = new_store namespace

  abbrev pub tag_range : Str → Tuple
  tag_range t = events_subspace_of store q ++ text t ∷ []

  abbrev pub in_tag : Str → Option Versionstamp → StoredEvent → Bool
  in_tag t after e =
      is_after after e.position && (same t e.event.event_type && has_all q e.event.tags)

  tag_range-append :
      (t : Str) (r : Tuple)
      → tag_range t ++ r
        ≡ store.by_tag ++ (map text (sort_tags q) ++ text events_in_tag_subspace ∷ text t ∷ r)
  tag_range-append t r = simp append_assoc

  -- The paths of an event that has the tags include the path of the query.
  path_listed :
      (e : StoredEvent)
      → IsIndexable e
      → has_all q e.event.tags ≡ true
      → In (sort_tags q) (generate_all_subsets e.event.tags)
  path_listed e ix h = (generate_all_subsets-exact e.event.tags (sort_tags q) ix.1).1 (
    sort_tags-ne q tagged,
    (Chosen-sort_iff q e.event.tags distinct).1 ((has_all_iff q e.event.tags).0 h),
  )

  stored_key :
      (e : StoredEvent)
      → In e log
      → has_all q e.event.tags ≡ true
      → get d (tag_range e.event.event_type ++ stamp (to_stamp e.position) ∷ []) ≡ some []
  stored_key e i h =
      rw tag_range-append
        (rep.complete e _ [] i (there (there (In-map_of _ _ (path_listed e (indexable e i) h)))))

  -- A key beneath the path of the query and a type was written for an event of that type with the tags.
  tag_key-cases :
      (t : Str) (k : Tuple) (v : List ℕ) (e : StoredEvent)
      → IsIndexable e
      → Beneath (tag_range t) k
      → Written D namespace e k v
      → (t ≡ e.event.event_type)
        × (has_all q e.event.tags ≡ true)
        × (k ≡ tag_range t ++ stamp (to_stamp e.position) ∷ [])
  unfolding kind
  tag_key-cases t k v e ix (x, r, h) (in_events h' w) =
      absurd (omega (arith, ap kind h, ap kind h'))
  tag_key-cases t k v e ix (x, r, h) (in_types h' w) = absurd (omega (arith, ap kind h, ap kind h'))
  tag_key-cases t k v e ix (x, r, h) (in_tags subset i h' w) =
      let (ne, chosen) = (generate_all_subsets-exact e.event.tags subset ix.1).0 i in
      let paths = append-cancel_left store.by_tag _ _ (sym h' ∙ h ∙ tag_range-append t (x ∷ r)) in
      let (is_query, is_type, is_stamp) =
        path_unique subset (sort_tags q) e.event.event_type (to_stamp e.position) t (x ∷ r)
          (subset-IsPlain e.event.tags subset ix.0 chosen) paths in
      (
        is_type,
        (has_all_iff q e.event.tags).1 (
            (Chosen-sort_iff q e.event.tags distinct).0
              (subst (λ s. Chosen s (sort_tags e.event.tags)) is_query chosen)),
        h ∙ ap (λ (s : Tuple). tag_range t ++ s) is_stamp,
      )

  -- The range of the tags and a type reads the events of the type with the tags after the bound.
  pub tag_range-Reads :
      (t : Str) (after : Option Versionstamp)
      → Reads D d log (tag_range t) (range_of D (tag_range t) after) (in_tag t after)
  tag_range-Reads t after = record {
    sound = λ k v i.
        let (g, b, u) = scan_sound d _ k v i in
        let under = range_of-Beneath D (tag_range t) k after b u in
        let (_, _, shape) = under in
        let (e, j, w) = rep.sound _ v (subst (λ x. get d x ≡ some v) shape g) in
        let wrote : Written D namespace e k v =
          subst (λ x. Written D namespace e x v) (sym shape) (writes-cases D namespace e _ v w) in
        let (ty, all, place) = tag_key-cases t k v e (indexable e j) under wrote in
        let late : is_after after e.position ≡ true =
          sym (range_of-starts D (tag_range t) after e.position)
          ∙ subst (λ x. starts (range_of D (tag_range t) after).begin x ≡ true) place b in
        (e, j, rw (late, all, ← ty, same_self t) refl, place);
    complete = λ e i found.
        let (late, rest) =
          &&_true {a = is_after after e.position}
            {b = same t e.event.event_type && has_all q e.event.tags} found in
        let (is, all) = &&_true {a = same t e.event.event_type} {b = has_all q e.event.tags} rest in
        let ty : t ≡ e.event.event_type = (same_iff t e.event.event_type).0 is in
        (
          [],
          row_of_get D d (tag_range t) after e.position []
              (subst (λ u. get d (tag_range u ++ stamp (to_stamp e.position) ∷ []) ≡ some [])
                (sym ty) (stored_key e i all))
              late,
        );
  }

  -- The scan of the tag's subspace discovers the type of each event that has the tags.
  pub discovers :
      (e : StoredEvent)
      → In e log
      → has_all q e.event.tags ≡ true
      → In e.event.event_type (discover_types_in_tag_subspace D d (events_subspace_of store q))
  unfolding discover_types_in_tag_subspace
  discovers e i h =
      let ss : Tuple = events_subspace_of store q in
      let k : Tuple = ss ++ text e.event.event_type ∷ stamp (to_stamp e.position) ∷ [] in
      let held : get d k ≡ some [] =
        subst (λ x. get d x ≡ some []) (append_assoc ss _ _) (stored_key e i h) in
      let (b, u) =
        within_complete ss k (text e.event.event_type, stamp (to_stamp e.position) ∷ [], refl) in
      let listed : In (k, []) (scan d (range_keys ss)) =
        scan_complete d (range_keys ss) k [] held b u in
      elim (collect_types-In _ [] k [] e.event.event_type listed
        (type_of_key-append ss e.event.event_type (stamp (to_stamp e.position)))) [
          | inl found ↦ found
          | inr seen ↦ cc seen
        ]
