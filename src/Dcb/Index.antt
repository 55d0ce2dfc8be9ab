-- ===== src/Dcb/Index.antt =====
-- The keys that an event is stored under, and the ranges that a query reads: `newConcreteEventStore`,
-- `rangeAfterVersionstamp`, `discoverTypesInTagSubspace` and `buildQueryRanges` of dcb/dcb.go.
use fairway.Base.{
  ℕ, true, false, List, [], ◌∷◌, ◌++◌, map, Option, none, some, if◌then◌else◌, codes,
}
use fairway.Fdb.{Str, Tuple, text, stamp, int, bytes, Database, KeyRange, suffixed}
use fairway.Dcb.Types.{
  Versionstamp, to_stamp, of_stamp, QueryItem, Result, ok, err, invalid_query, has,
  has_no_type_nor_tags, has_types_only, has_types_and_tags,
}
use fairway.Dcb.Subsets.{sort_tags}

-- A subspace is the tuple that its prefix packs.
pub record FdbStore : Type 0 where
  pub namespace : Str
  pub events : Tuple
  pub by_type : Tuple
  pub by_tag : Tuple

abbrev pub new_store : Str → FdbStore
new_store namespace = record {
  namespace = namespace;
  events = text namespace ∷ text (codes "e") ∷ [];
  by_type = text namespace ∷ text (codes "t") ∷ [];
  by_tag = text namespace ∷ text (codes "g") ∷ [];
}

abbrev pub events_in_tag_subspace : Str
events_in_tag_subspace = codes "_e"

-- keyTuple[len(keyTuple)-2].(string); a key beneath a tag has two elements at least
unfoldable pub type_of_key : Tuple → Option Str
type_of_key [] = none
type_of_key (x ∷ []) = none
type_of_key (text t ∷ y ∷ []) = some t
type_of_key (bytes b ∷ y ∷ []) = none
type_of_key (int n ∷ y ∷ []) = none
type_of_key (stamp s ∷ y ∷ []) = none
type_of_key (x ∷ y ∷ z ∷ r) = type_of_key (y ∷ z ∷ r)

-- extractVersionstamp: the last element, if it is a versionstamp, and else `Versionstamp{}`, which is 0.
unfoldable pub extract_versionstamp : Tuple → Versionstamp
extract_versionstamp [] = 0
extract_versionstamp (stamp s ∷ []) = of_stamp s
extract_versionstamp (text s ∷ []) = 0
extract_versionstamp (bytes b ∷ []) = 0
extract_versionstamp (int n ∷ []) = 0
extract_versionstamp (x ∷ y ∷ t) = extract_versionstamp (y ∷ t)

-- `seen` is `typeSet`.
unfoldable pub collect_types : List (Tuple × List ℕ) → List Str → List Str
collect_types [] seen = []
collect_types ((k, v) ∷ rows) seen = elim (type_of_key k) [
  | none ↦ collect_types rows seen
  | some t ↦ elim (has seen t) [
    | true ↦ collect_types rows seen
    | false ↦ t ∷ collect_types rows (t ∷ seen)
  ]
]

abbrev pub events_subspace_of : FdbStore → List Str → Tuple
events_subspace_of s tags =
    s.by_tag ++ (map text (sort_tags tags) ++ text events_in_tag_subspace ∷ [])

module _ (D : Database) where
  open D use {Db, get, scan, range_keys}

  -- The begin key is exclusive: 0x00 after the packed versionstamp.
  unfoldable pub range_after_versionstamp : Tuple → Versionstamp → KeyRange
  range_after_versionstamp ss after = record {
    begin = suffixed (ss ++ stamp (to_stamp after) ∷ []) 0;
    end = (range_keys ss).end;
  }

  unfoldable pub range_of : Tuple → Option Versionstamp → KeyRange
  unfolding range_after_versionstamp
  range_of ss none = range_keys ss
  range_of ss (some after) = range_after_versionstamp ss after

  unfoldable pub discover_types_in_tag_subspace : Db → Tuple → List Str
  unfolding collect_types type_of_key
  discover_types_in_tag_subspace d events_subspace =
      collect_types (scan d (range_keys events_subspace)) []

  unfoldable pub build_query_ranges :
      FdbStore → Db → QueryItem → Option Versionstamp → Result (List KeyRange)
  unfolding has_no_type_nor_tags has_types_only has_types_and_tags range_of
      discover_types_in_tag_subspace
  build_query_ranges s d item after =
      let ranges : Tuple → List Str → List KeyRange =
        λ ss types. map (λ t. range_of (ss ++ text t ∷ []) after) types in
      let events_subspace : Tuple = events_subspace_of s item.tags in
      if has_no_type_nor_tags item
      then err invalid_query
      else if has_types_only item
      then ok (ranges s.by_type item.types)
      else ok (
          ranges events_subspace (
            if has_types_and_tags item
            then item.types
            else discover_types_in_tag_subspace d events_subspace))
