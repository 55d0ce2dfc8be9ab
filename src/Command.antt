-- ===== src/Command.antt =====
-- command.go, view.go and query.go: reading events for a command, and appending on the condition that
-- nothing that was read has changed. The event store is the interface DcbStore; JSON and the registry
-- of types are the arguments `deserialize` and `serialize`. A handler is given: a nil one, for which
-- ReadEvents does nothing, is left out.
pub mod Conditions
pub mod Reads
pub mod Fresh
pub mod Exact
pub mod Unchanged
pub mod Store
pub mod Rounds
pub mod Runner
pub mod Plans
pub mod Grown
use fairway.Base.{
  ℕ, ◌≡◌, refl, Bool, true, false, List, [], ◌∷◌, ◌++◌, map, Option, none, some, if◌then◌else◌, ltb,
}
use fairway.Fdb.{Str}
use fairway.Dcb.Types.{
  Versionstamp, Event, QueryItem, Query, AppendCondition, ReadOptions, StoredEvent, Result, ok, err,
  ◌>>=◌, Error, context_done, formatted,
}

-- The store as a command sees it: `read` yields events, and an error at most at the end; `append`
-- fails, or gives the store after it.
pub record DcbStore : Type 1 where
  pub S : Type 0
  pub read : S → Query → Option ReadOptions → List (Result StoredEvent)
  pub append : S → List Event → List AppendCondition → Result S

-- What one read leaves for the conditions.
pub record ReadRecord : Type 0 where
  pub query : Query
  pub highest_seen_versionstamp : Option Versionstamp

-- `query.opts != nil && query.opts.Reverse`
abbrev pub is_reverse : Option ReadOptions → Bool
is_reverse none = false
is_reverse (some opts) = opts.reverse

-- The highest versionstamp, with one more event read.
unfoldable pub track : Bool → Option Versionstamp → Versionstamp → Option Versionstamp
track false highest pos = some pos
track true none pos = some pos
track true (some highest) pos = if ltb highest pos then some pos else some highest

module _ {E H : Type 0} (deserialize : Event → Result E) (handler : H → E → H × Bool) where
  -- The loop of ReadEvents: the state of the handler, and the highest versionstamp or the error.
  unfoldable pub dispatch :
      Bool
      → Bool
      → Option Versionstamp
      → H
      → List (Result StoredEvent)
      → H × Result (Option Versionstamp)
  unfolding track
  dispatch ctx_done reverse highest h [] = (h, ok highest)
  dispatch ctx_done reverse highest h (err e ∷ rows) =
      (h, err (if ctx_done then context_done else formatted e))
  dispatch ctx_done reverse highest h (ok e ∷ rows) =
      let next : H → H × Result (Option Versionstamp) =
        λ h'. dispatch ctx_done reverse (track reverse highest e.position) h' rows in
      elim (deserialize e.event) [
        | err failure ↦ (h, err (formatted failure))
        | ok ev ↦
            if (handler h ev).1
            then next (handler h ev).0
            else ((handler h ev).0, ok (track reverse highest e.position))
      ]

  -- ReadEvents of commandReadAppender: the reads that are recorded grow when it succeeds.
  unfoldable pub read_events :
      (store : DcbStore)
      → store.S
      → Bool
      → Query
      → Option ReadOptions
      → H
      → List ReadRecord
      → H × Result (List ReadRecord)
  unfolding dispatch
  read_events store s ctx_done query opts h reads =
      let (h', outcome) = dispatch ctx_done (is_reverse opts) none h (store.read s query opts) in
      (
        h',
        outcome >>= λ highest.
            ok (reads ++ (record { query = query; highest_seen_versionstamp = highest }) ∷ []),
      )

  -- ReadEvents of viewReader: no options, and nothing is recorded.
  unfoldable pub view_read_events :
      (store : DcbStore) → store.S → Bool → Query → H → H × Result (Unit {0})
  unfolding dispatch
  view_read_events store s ctx_done query h =
      let (h', outcome) = dispatch ctx_done false none h (store.read s query none) in
      (h', outcome >>= λ highest. ok tt)

-- One condition per read.
abbrev pub condition_of : ReadRecord → AppendCondition
condition_of r = record { query = r.query; after = r.highest_seen_versionstamp }

module _ {E : Type 0} (serialize : E → Result Event) where
  unfoldable pub serialize_events : List E → Result (List Event)
  serialize_events [] = ok []
  serialize_events (e ∷ es) =
      let rest = serialize_events es in serialize e >>= λ d. rest >>= λ ds. ok (d ∷ ds)

  unfoldable pub append_events_no_condition :
      (store : DcbStore) → store.S → E → List E → Result store.S
  unfolding serialize_events
  append_events_no_condition store s event remaining_events =
      serialize_events (event ∷ remaining_events) >>= λ events. store.append s events []

  unfoldable pub append_events :
      (store : DcbStore) → store.S → List ReadRecord → E → List E → Result store.S
  unfolding serialize_events
  append_events store s reads event remaining_events =
      serialize_events (event ∷ remaining_events) >>= λ events.
      store.append s events (map condition_of reads)
