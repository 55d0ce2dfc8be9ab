-- ===== src/Dcb/Read.antt =====
-- dcb/read.go: reading by a merge of the ranges of a query, and reading everything. The consumer
-- `yield` is a callback with a state, which says whether it wants more. The priority queue is that of
-- the standard library: `pop` takes an item that comes first out of a list of items.
pub mod Merge
pub mod Order
pub mod Queue
pub mod Deliver
pub mod Iterators
pub mod Refinement
use fairway.Base.{
  backwards, ℕ, zero, suc, ◌+◌, ◌≡◌, refl, Bool, true, false, not, ◌&&◌, ◌||◌, List, [], ◌∷◌, ◌++◌,
  Option, none, some, if◌then◌else◌, ltb, leb, ◌==◌, length, filter, map, concat_map,
}
use fairway.Fdb.{Str, Tuple, Element, text, bytes, int, stamp, Database, KeyRange}
use fairway.Dcb.Types.{
  Versionstamp, of_stamp, QueryItem, Query, ReadOptions, StoredEvent, Result, ok, err, ◌>>=◌,
  Context, Error, context_done, bad_key, formatted,
}
use fairway.Dcb.Index.{FdbStore, extract_versionstamp, build_query_ranges}
use fairway.Dcb.Decode.{fetch_event, decode_event}

-- A rangeIterator that is not exhausted: its current versionstamp, and those that it has yet to read.
pub record RangeIterator : Type 0 where
  pub current : Versionstamp
  pub upcoming : List Versionstamp

-- `advance`, or `initRangeIterator`, on what is left; `none` is exhausted.
unfoldable pub advance : List Versionstamp → Option RangeIterator
advance [] = none
advance (v ∷ vs) = some (record { current = v; upcoming = vs })

-- vsHeap.Less
unfoldable pub less : Bool → RangeIterator → RangeIterator → Bool
less false a b = ltb a.current b.current
less true a b = ltb b.current a.current

-- container/heap: the item that `Pop` returns, and the items that stay.
pub record Heap : Type 0 where
  pub pop : Bool → List RangeIterator → Option (RangeIterator × List RangeIterator)

-- `heap.Push` if the iterator advanced
unfoldable pub pushed : Option RangeIterator → List RangeIterator → List RangeIterator
pushed none items = items
pushed (some i) items = i ∷ items

-- lastEmitted != nil && currentVS.Compare(*lastEmitted) == 0
unfoldable pub is_repeat : Option Versionstamp → Versionstamp → Bool
is_repeat none v = false
is_repeat (some last) v = v == last

-- opts.Limit > 0 && eventCount >= opts.Limit
unfoldable pub limit_reached : ℕ → ℕ → Bool
limit_reached limit count = ltb 0 limit && leb limit count

-- How the loop ends: with a count, an error, or a panic; `spent` is a lack of fuel.
pub data Ending : Type 0 where
  ended : ℕ → Ending
  aborted : Error → Ending
  panicked spent : Ending

module _ (heap : Heap) {Y : Type 0} (yield : Y → StoredEvent → Y × Bool)
    (fetch : Versionstamp → Result (Option StoredEvent)) (limit : ℕ) (reverse : Bool) where
  -- The k-way merge. Each round takes one versionstamp out of the iterators, so the number of
  -- versionstamps in them, and one more, is fuel enough.
  unfoldable pub merge : Context → ℕ → Option Versionstamp → ℕ → Y → List RangeIterator → Y × Ending
  unfolding advance pushed is_repeat limit_reached
  merge ctx zero last count y items = (y, spent)
  merge ctx (suc fuel) last count y items = elim (heap.pop reverse items) [
    | none ↦ (y, ended count)
    | some popped ↦ elim (ctx fuel) [
      | true ↦ (y, aborted context_done)
      | false ↦ elim (is_repeat last popped.0.current) [
        | true ↦ merge ctx fuel last count y (pushed (advance popped.0.upcoming) popped.1)
        | false ↦ elim (fetch popped.0.current) [
          | err e ↦ (y, aborted e)
          | ok fetched ↦ elim fetched [
            | none ↦ (y, panicked)
            | some e ↦ elim ((yield y e).1) [
              | false ↦ ((yield y e).0, ended count)
              | true ↦ elim (limit_reached limit (suc count)) [
                | true ↦ ((yield y e).0, ended (suc count))
                | false ↦
                    merge ctx fuel (some popped.0.current) (suc count) (yield y e).0
                      (pushed (advance popped.0.upcoming) popped.1)
              ]
            ]
          ]
        ]
      ]
    ]
  ]

-- How many versionstamps the iterators hold.
unfoldable pub size : List RangeIterator → ℕ
size [] = 0
size (i ∷ items) = suc (length i.upcoming) + size items

module _ (D : Database) where
  open D use {Db, scan}

  -- The versionstamps of a range, in the order of its iterator.
  unfoldable pub range_versionstamps : Db → Bool → KeyRange → List Versionstamp
  unfolding extract_versionstamp
  range_versionstamps d reverse r =
      let vss : List Versionstamp =
        map (λ (row : Tuple × List ℕ). extract_versionstamp row.0) (scan d r) in
      if reverse then backwards vss [] else vss

  -- The iterators of ranges that are not exhausted at once.
  unfoldable pub range_iterators : Db → Bool → List KeyRange → List RangeIterator
  unfolding range_versionstamps advance pushed
  range_iterators d reverse [] = []
  range_iterators d reverse (r ∷ rs) =
      pushed (advance (range_versionstamps d reverse r)) (range_iterators d reverse rs)

module _ (D : Database) (s : FdbStore) where
  open D use {Db}

  -- `for itemIdx, item := range query.Items`
  unfoldable pub all_iterators :
      Db → Bool → Bool → List QueryItem → Option Versionstamp → Result (List RangeIterator)
  unfolding range_iterators
  all_iterators d ctx_done reverse [] after = ok []
  all_iterators d ctx_done reverse (item ∷ items) after =
      let rest = all_iterators d ctx_done reverse items after in
      elim (build_query_ranges D s d item after) [
        | err e ↦ err (if ctx_done then context_done else formatted e)
        | ok ranges ↦ rest >>= λ iterators. ok (range_iterators D d reverse ranges ++ iterators)
      ]

  -- readEvents, with the fuel that the merge needs; `ctx_done` tells whether the context is done where
  -- an error looks at it, and `ctx` whether it is at each round.
  unfoldable pub read_events :
      (heap : Heap) {Y : Type 0} (yield : Y → StoredEvent → Y × Bool)
      → Db
      → Context
      → Bool
      → Query
      → ReadOptions
      → Y
      → Y × Ending
  unfolding all_iterators merge fetch_event size
  read_events heap yield d ctx ctx_done query opts y =
      elim (all_iterators d ctx_done opts.reverse query.items opts.after) [
        | err e ↦ (y, aborted e)
        | ok items ↦
            merge heap yield (fetch_event D s d ctx_done) opts.limit opts.reverse ctx
              (suc (size items)) none 0 y items
      ]
