-- ===== src/Dcb/Log/Items.antt =====
-- The ranges that `buildQueryRanges` makes of an item, against the log.
use fairway.Base.{
  ◌<◌, ◌≡◌, ◌≢◌, refl, sym, subst, ◌∙◌, Bool, true, false, ◌&&◌, inl, inr, List, [], ◌∷◌, ◌++◌, map,
  Option, arith, In, any, any_of_In, In-of_any, In-map, In-map_of, bool_ext, &&_true, Bool-cases,
  Pairwise,
}
use fairway.Base.Order.{ℕ_ord, list_ord, same, same_iff, same_self}
use fairway.Base.Sort.{Distinct}
use fairway.Fdb.{Str, Tuple, text, Database, KeyRange}
use fairway.Dcb.Types.{Versionstamp, QueryItem, StoredEvent, ok, has, has_no_type_nor_tags}
use fairway.Dcb.Index.{
  FdbStore, new_store, range_of, build_query_ranges, events_subspace_of,
  discover_types_in_tag_subspace,
}
use fairway.Dcb.Append.{some_row}
use fairway.Dcb.Log.{Represents, is_after, has_all, selects, IsIndexable}
use fairway.Dcb.Log.Ranges.{
  Reads, stamps, stamps_sound, stamps_complete, stamps-rise, stamps-some_row, some_row-stamps,
}
use fairway.Dcb.Log.Rows.{has-In}
use fairway.Dcb.Log.TypeRange.{type_range-Reads}
use fairway.Dcb.Log.TagRange.{tag_range-Reads, discovers}

-- The items that a query may hold: not empty, and with a set of tags.
pub record IsProper (item : QueryItem) : Type 0 where
  pub not_empty : has_no_type_nor_tags item ≡ false
  pub distinct : Distinct item.tags

module _ (D : Database) (d : D.Db) (log : List StoredEvent) where
  -- The ranges hold the positions of the picked events, each range in ascending order.
  pub record Covers (ranges : List KeyRange) (picks : StoredEvent → Bool) : Type 0 where
    pub sound :
        (r : KeyRange) (p : Versionstamp)
        → In r ranges
        → In p (stamps D d log r)
        → (e : StoredEvent) × In e log × (picks e ≡ true) × (e.position ≡ p)
    pub complete :
        (e : StoredEvent)
        → In e log
        → picks e ≡ true
        → (r : KeyRange) × In r ranges × In e.position (stamps D d log r)
    pub rises : (r : KeyRange) → In r ranges → Pairwise ◌<◌ (stamps D d log r)

  pub Covers-some_row :
      (ranges : List KeyRange) (picks : StoredEvent → Bool)
      → Covers ranges picks
      → any (some_row D d) ranges ≡ any picks log
  Covers-some_row ranges picks c = bool_ext _ _ sound complete
    where
      sound : any (some_row D d) ranges ≡ true → any picks log ≡ true
      sound h =
          let (r, i, some) = In-of_any (some_row D d) ranges h in
          let (p, j) = some_row-stamps D d log r some in
          let (e, k, q, at) = c.sound r p i j in any_of_In picks log k q

      complete : any picks log ≡ true → any (some_row D d) ranges ≡ true
      complete h =
          let (e, i, q) = In-of_any picks log h in
          let (r, j, k) = c.complete e i q in
          any_of_In (some_row D d) ranges j (stamps-some_row D d log r e.position k)

  Covers-ext :
      (ranges : List KeyRange) (picks others : StoredEvent → Bool)
      → ((e : StoredEvent) → In e log → picks e ≡ others e)
      → Covers ranges picks
      → Covers ranges others
  Covers-ext ranges picks others same_picks c = record {
    sound = λ r p i j. let (e, k, q, at) = c.sound r p i j in (e, k, sym (same_picks e k) ∙ q, at);
    complete = λ e i q. c.complete e i (same_picks e i ∙ q);
    rises = c.rises;
  }

  -- One range a type, with a test `also` on the tags.
  Covers-types :
      (types : List Str) (place : Str → Tuple) (after : Option Versionstamp)
      (also : StoredEvent → Bool)
      → ((t : Str)
          → Reads D d log
              (place t)
              (range_of D (place t) after)
              (λ e. is_after after e.position && (same t e.event.event_type && also e)))
      → Covers
          (map (λ t. range_of D (place t) after) types)
          (λ e. is_after after e.position && (has types e.event.event_type && also e))
  Covers-types types place after also reads = record {
    sound = λ r p i j.
        let (t, k, is) = In-map _ types i in
        let (e, l, q, at) =
          stamps_sound D d log (place t) (range_of D (place t) after) _ (reads t) p
            (subst (λ x. In p (stamps D d log x)) is j) in
        let (late, rest) =
          &&_true {a = is_after after e.position} {b = same t e.event.event_type && also e} q in
        let (st, fits) = &&_true {a = same t e.event.event_type} {b = also e} rest in
        let ty : t ≡ e.event.event_type = (same_iff t e.event.event_type).0 st in
        let hs : has types e.event.event_type ≡ true =
          any_of_In (same e.event.event_type) types k (rw (← ty) (same_self t)) in
        (e, l, rw (late, hs, fits) refl, at);
    complete = λ e i q.
        let (late, rest) =
          &&_true {a = is_after after e.position} {b = has types e.event.event_type && also e} q in
        let (hs, fits) = &&_true {a = has types e.event.event_type} {b = also e} rest in
        (
          range_of D (place e.event.event_type) after,
          In-map_of (λ t. range_of D (place t) after) types
              ((has-In types e.event.event_type).0 hs),
          stamps_complete D d log (place e.event.event_type)
              (range_of D (place e.event.event_type) after) _ (reads e.event.event_type) e i
              (rw (late, same_self e.event.event_type, fits) refl),
        );
    rises = λ r i.
        let (t, k, is) = In-map _ types i in
        subst (λ x. Pairwise ◌<◌ (stamps D d log x)) (sym is)
          (stamps-rise D d log (place t) (range_of D (place t) after) _ (reads t));
  }

module _ (D : Database) (namespace : Str) (d : D.Db) (log : List StoredEvent)
    (rep : Represents D namespace d log) (indexable : (e : StoredEvent) → In e log → IsIndexable e)
    (after : Option Versionstamp) where
  abbrev store : FdbStore
  store = new_store namespace

  tagged :
      (q types : List Str)
      → Distinct q
      → q ≢ []
      → Covers D d log
          (map (λ t. range_of D (events_subspace_of store q ++ text t ∷ []) after) types)
          (λ e.
            is_after after e.position && (has types e.event.event_type && has_all q e.event.tags))
  tagged q types distinct ne =
      Covers-types D d log types (λ t. events_subspace_of store q ++ text t ∷ []) after
        (λ e. has_all q e.event.tags)
        (λ t. tag_range-Reads D namespace d log rep indexable q distinct ne t after)

  tags_only :
      (q : List Str) (e : StoredEvent)
      → Distinct q
      → q ≢ []
      → In e log
      → (is_after after e.position
          && (has
                (discover_types_in_tag_subspace D d (events_subspace_of store q))
                e.event.event_type
              && has_all q e.event.tags))
        ≡ (is_after after e.position && has_all q e.event.tags)
  tags_only q e distinct ne i = elim (Bool-cases (has_all q e.event.tags)) [
    | inl all ↦
        rw
          (
            all,
            (has-In _ e.event.event_type).1
                (discovers D namespace d log rep indexable q distinct ne e i all),
          )
          refl
    | inr not_all ↦ ground arith
  ]

  Covers-item_by_case :
      (types tags : List Str)
      → IsProper (record { types = types; tags = tags })
      → (ranges : List KeyRange) × (build_query_ranges D store d
            (record { types = types; tags = tags })
            after
          ≡ ok ranges)
        × Covers D d log ranges (selects (record { types = types; tags = tags }) after)
  unfolding build_query_ranges
  Covers-item_by_case [] [] p = cc p.not_empty
  Covers-item_by_case (t ∷ ts) [] p = (
    _,
    refl,
    Covers-ext D d log _ _ _ (λ e i. ground arith)
        (Covers-types D d log (t ∷ ts) (λ u. store.by_type ++ text u ∷ []) after (λ e. true)
          (λ u. type_reads u)),
  )
    where
      type_reads :
          (u : Str)
          → Reads D d log
              (store.by_type ++ text u ∷ [])
              (range_of D (store.by_type ++ text u ∷ []) after)
              (λ e. is_after after e.position && (same u e.event.event_type && true))
      type_reads u = type_range-Reads D namespace d log rep u after
  Covers-item_by_case [] (t ∷ ts) p = (
    _,
    refl,
    Covers-ext D d log _ _ _ (λ e i. tags_only (t ∷ ts) e p.distinct (λ x. cc) i)
        (tagged (t ∷ ts) (discover_types_in_tag_subspace D d (events_subspace_of store (t ∷ ts)))
          p.distinct (λ e. cc)),
  )
  Covers-item_by_case (u ∷ us) (t ∷ ts) p = (_, refl, tagged (t ∷ ts) (u ∷ us) p.distinct (λ e. cc))

  -- The ranges of a proper item hold the positions of the events that it selects.
  pub Covers-item :
      (item : QueryItem)
      → IsProper item
      → (ranges : List KeyRange) × (build_query_ranges D store d item after ≡ ok ranges)
        × Covers D d log ranges (selects item after)
  Covers-item item p = Covers-item_by_case item.types item.tags p
