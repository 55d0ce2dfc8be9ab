-- ===== src/Dcb/ReadAll/Invalid.antt =====
-- A read of an invalid query.
use fairway.Base.{
  Bool-cases, inl, inr, ◌≡◌, refl, Bool, true, false, List, [], ◌∷◌, Option, if◌then◌else◌, In,
  here, there,
}
use fairway.Fdb.{Database, KeyRange}
use fairway.Dcb.Types.{
  Versionstamp, QueryItem, Query, ReadOptions, StoredEvent, Result, err, Context, context_done,
  invalid_query, formatted, has_no_type_nor_tags, has_types_only, ok, Error,
}
use fairway.Dcb.Index.{FdbStore, build_query_ranges}
use fairway.Dcb.Read.{Heap, aborted, all_iterators, read_events}
use fairway.Dcb.ReadAll.{report, options_or_default, read}

module _ (D : Database) (s : FdbStore) (d : D.Db) (after : Option Versionstamp) where
  -- An empty item has no ranges, and any other item has.
  build_query_ranges-empty :
      (item : QueryItem)
      → has_no_type_nor_tags item ≡ true
      → build_query_ranges D s d item after ≡ err invalid_query
  unfolding build_query_ranges
  build_query_ranges-empty item h = rw h refl

  build_query_ranges-some :
      (item : QueryItem)
      → has_no_type_nor_tags item ≡ false
      → (ranges : List KeyRange) × (build_query_ranges D s d item after ≡ ok ranges)
  unfolding build_query_ranges
  build_query_ranges-some item h = rw h (at (has_types_only item) _ _)
    where
      at :
          (b : Bool) (x y : List KeyRange)
          → (ranges : List KeyRange) × ((if b then ok x else ok y) ≡ ok ranges)
      at true x y = (x, refl)
      at false x y = (y, refl)

  module _ (ctx_done reverse : Bool) where
    -- The error of a query with an empty item, wherever the item stands.
    all_iterators-invalid :
        (items : List QueryItem) (item : QueryItem)
        → In item items
        → has_no_type_nor_tags item ≡ true
        → all_iterators D s d ctx_done reverse items after
          ≡ err (if ctx_done then context_done else formatted invalid_query)
    unfolding all_iterators
    all_iterators-invalid [] item i h = elim i [ ]
    all_iterators-invalid (x ∷ items) item (here e) h =
        rw (all_iterators, build_query_ranges-empty x (rw e at h)) refl
    all_iterators-invalid (x ∷ items) item (there i) h =
        elim (Bool-cases (has_no_type_nor_tags x)) [
          | inl empty ↦ rw (all_iterators, build_query_ranges-empty x empty) refl
          | inr filled ↦
              let (ranges, made) = build_query_ranges-some x filled in
              rw (all_iterators, made, all_iterators-invalid items item i h) refl
        ]

-- On any database, if some item of the query has neither a type nor a tag, a read that starts calls
-- `yield` once, with an error and with no event: the context's error if it is done by then, and else the
-- text of the error for an invalid query.
pub read_invalid :
    (D : Database) (s : FdbStore) (heap : Heap) {Y : Type 0}
    (yield : Y → Result StoredEvent → Y × Bool) (d : D.Db) (ctx : Context) (ctx_done : Bool)
    (query : Query) (opts : Option ReadOptions) (y : Y) (item : QueryItem)
    → In item query.items
    → has_no_type_nor_tags item ≡ true
    → let e : Error = (if ctx_done then context_done else formatted invalid_query) in
      read D s heap yield d false ctx ctx_done query opts y ≡ ((yield y (err e)).0, aborted e)
unfolding read read_events report
read_invalid D s heap yield d ctx ctx_done query opts y item i h =
    rw
      (
        read_events,
        all_iterators-invalid D s d (options_or_default opts).after ctx_done
            (options_or_default opts).reverse query.items item i h,
      )
      refl
