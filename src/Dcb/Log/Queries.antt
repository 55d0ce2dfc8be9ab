-- ===== src/Dcb/Log/Queries.antt =====
-- `queryItemExists` and `queryExists` against the log.
use fairway.Base.{◌≡◌, refl, sym, ap, Bool, false, ◌||◌, List, [], ◌∷◌, Option, arith, In, any, All}
use fairway.Fdb.{Str, Database}
use fairway.Dcb.Types.{Versionstamp, QueryItem, StoredEvent, ok, ◌>>=◌}
use fairway.Dcb.Index.{FdbStore, new_store}
use fairway.Dcb.Append.{query_item_exists, query_exists}
use fairway.Dcb.Log.{Represents, selects, selects_any, IsIndexable}
use fairway.Dcb.Log.Items.{IsProper, Covers-item, Covers-some_row}

any-or {ℓ} :
    {A : Type ℓ} (p q : A → Bool) (xs : List A) → (any p xs || any q xs) ≡ any (λ a. p a || q a) xs
any-or p q [] = refl
any-or p q (x ∷ xs) = ground (arith, any-or p q xs)

any-never {ℓ} : {A : Type ℓ} (xs : List A) → any (λ (a : A). false) xs ≡ false
any-never [] = refl
any-never (x ∷ xs) = any-never xs

module _ (D : Database) (namespace : Str) (d : D.Db) (log : List StoredEvent)
    (rep : Represents D namespace d log) (indexable : (e : StoredEvent) → In e log → IsIndexable e)
    (after : Option Versionstamp) where
  abbrev store : FdbStore
  store = new_store namespace

  -- An item finds an event exactly if the log holds one that it selects.
  pub query_item_exists_exact :
      (item : QueryItem)
      → IsProper item
      → query_item_exists D store d item after ≡ ok (any (selects item after) log)
  unfolding query_item_exists
  query_item_exists_exact item p =
      let (ranges, built, covers) = Covers-item D namespace d log rep indexable after item p in
      rw (built, ◌>>=◌, Covers-some_row D d log ranges (selects item after) covers) refl

  -- On a database that holds a log of indexable events, for items that are proper (a type or a tag, no
  -- tag twice), `query_exists` succeeds and answers whether the log has an event after the given
  -- position that one of the items matches.
  pub query_exists_exact :
      (items : List QueryItem)
      → All IsProper items
      → query_exists D store d items after ≡ ok (any (selects_any items after) log)
  unfolding query_exists
  query_exists_exact [] p = ap ok (sym (any-never log))
  query_exists_exact (item ∷ items) p =
      rw
        (
          query_item_exists_exact item p.0,
          ◌>>=◌,
          query_exists_exact items p.1,
          ← any-or (selects item after) (selects_any items after) log,
        )
        (ground arith)
