-- ===== src/Dcb/Log.antt =====
-- The abstract store: a log of events in the order of their positions, and what it means that a
-- database holds the log under the keys of dcb/append.go.
pub mod Writes
pub mod Keys
pub mod Paths
pub mod Rows
pub mod Ranges
pub mod TypeRange
pub mod TagRange
pub mod Items
pub mod Queries
pub mod Refinement
pub mod History
use fairway.Base.{
  ℕ, ◌+◌, ◌*◌, ◌≤◌, ◌<◌, ◌≡◌, Bool, true, false, ◌&&◌, ◌||◌, List, [], ◌∷◌, ◌++◌, map, Option, none,
  some, any, In, Pairwise, All, length, ltb, codes, if◌then◌else◌,
}
use fairway.Base.Order.{ℕ_ord, list_ord, same}
use fairway.Fdb.{Str, Tuple, text, stamp, Database}
use fairway.Dcb.Types.{Versionstamp, to_stamp, Event, QueryItem, Query, StoredEvent, has}
use fairway.Dcb.Subsets.{generate_all_subsets}
use fairway.Dcb.Index.{FdbStore, new_store, events_in_tag_subspace}
use fairway.Dcb.Append.{event_value, tag_key}

abbrev pub has_all : List Str → List Str → Bool
has_all [] tags = true
has_all (t ∷ ts) tags = has tags t && has_all ts tags

-- An event matches an item: its type is one of the types, if there are any, and it has all the tags.
abbrev pub type_matches : List Str → Str → Bool
type_matches [] t = true
type_matches (x ∷ xs) t = has (x ∷ xs) t

abbrev pub matches : QueryItem → Event → Bool
matches item e = type_matches item.types e.event_type && has_all item.tags e.tags

abbrev pub is_after : Option Versionstamp → Versionstamp → Bool
is_after none p = true
is_after (some v) p = ltb v p

abbrev pub selects : QueryItem → Option Versionstamp → StoredEvent → Bool
selects item after e = is_after after e.position && matches item e.event

abbrev pub selects_any : List QueryItem → Option Versionstamp → StoredEvent → Bool
selects_any items after e = any (λ item. selects item after e) items

module _ (D : Database) (namespace : Str) where
  open D use {Db, get}

  abbrev store : FdbStore
  store = new_store namespace

  -- The keys and values of one stored event.
  abbrev pub writes : StoredEvent → List (Tuple × List ℕ)
  writes e =
      (store.events ++ stamp (to_stamp e.position) ∷ [], event_value D store e.event)
      ∷ (store.by_type ++ text e.event.event_type ∷ stamp (to_stamp e.position) ∷ [], [])
      ∷ map (λ subset. (tag_key D store subset e.event.event_type (to_stamp e.position), []))
          (generate_all_subsets e.event.tags)

  -- The keys of the namespace hold the log, and nothing else.
  pub record Represents (d : Db) (log : List StoredEvent) : Type 0 where
    pub sound :
        (k : Tuple) (v : List ℕ)
        → get d (text namespace ∷ k) ≡ some v
        → (e : StoredEvent) × In e log × In (text namespace ∷ k, v) (writes e)
    pub complete :
        (e : StoredEvent) (k : Tuple) (v : List ℕ)
        → In e log
        → In (k, v) (writes e)
        → get d k ≡ some v

-- Tags that the index can tell apart from its own separator, and few enough for its loop.
abbrev pub IsIndexable : StoredEvent → Type 0
IsIndexable e = (has e.event.tags events_in_tag_subspace ≡ false) × (length e.event.tags < 63)

-- The order of the log is that of the positions.
abbrev pub IsAscending : List StoredEvent → Type 0
IsAscending log = Pairwise (λ a b. a.position < b.position) log
