-- ===== src/Command/Plans.antt =====
-- Commands that read once and then decide: command.go as the examples use it. `to_dcb_event` is that of
-- event.go; JSON and reflection are the Format of the events. A run meets the store in the state of its
-- read and in that of its append, since other clients work between them.
pub mod Serial
pub mod Written
pub mod Alone
pub mod Sequential
pub mod Tracking
use fairway.Base.{ℕ, ◌≡◌, Bool, true, false, List, [], ◌∷◌, Option, none, ◌&&◌, any, filter}
use fairway.Fdb.{Str}
use fairway.Dcb.Types.{Event, QueryItem, Query, Result, ok, err, ◌>>=◌, Error}
use fairway.Dcb.Log.{type_matches, has_all}
use fairway.Command.{DcbStore, ReadRecord, read_events, append_events}

-- reflect.TypeOf(e.Data).Name(), Tags(), and JSON with its registry of types
pub record Format (E : Type 0) : Type 0 where
  pub type_of : E → Str
  pub tags_of : E → List Str
  pub marshal : E → Result (List ℕ)
  pub unmarshal : Str → List ℕ → Result E

-- What the documentation of JSON says of a type whose fields are all exported.
abbrev pub RoundTrips : {E : Type 0} → Format E → Type 0
RoundTrips {E} f =
    (e : E) (payload : List ℕ) → f.marshal e ≡ ok payload → f.unmarshal (f.type_of e) payload ≡ ok e

-- What a command does after its read: `append e es` is AppendEvents(ctx, e, es...), `nothing` is
-- `return nil`, and `refuse x` returns an error of the command's own.
pub data Decision (E X : Type 0) : Type 0 where
  append : E → List E → Decision E X
  nothing : Decision E X
  refuse : X → Decision E X

pub data Outcome (S X : Type 0) : Type 0 where
  appended : S → Outcome S X
  unchanged : Outcome S X
  refused : X → Outcome S X
  failed : Error → Outcome S X

-- The parts of a Run: the query of its ReadEvents, the variables that the handler captures with their
-- first values, the handler, and the code after the read.
pub record Plan (E X : Type 0) : Type 1 where
  pub H : Type 0
  pub query : Query
  pub start : H
  pub handler : H → E → H × Bool
  pub decide : H → Decision E X

abbrev pub appends : {E X : Type 0} → Decision E X → Bool
appends (append e es) = true
appends nothing = false
appends (refuse x) = false

pub append-injective :
    {E X : Type 0} {a e : E} {ds es : List E}
    → ◌≡◌ {A = Decision E X} (append a ds) (append e es)
    → (e ≡ a) × (es ≡ ds)
append-injective h = (cc h, cc h)

-- A handler that asks for no more events leaves a state in which the command appends nothing.
abbrev pub GivesUp : {E X : Type 0} → Plan E X → Type 0
GivesUp {E} {X} p =
    (h : p.H) (e : E) → (p.handler h e).1 ≡ false → appends (p.decide (p.handler h e).0) ≡ false

unfoldable pub conclude : {S X : Type 0} → Result S → Outcome S X
conclude (ok s) = appended s
conclude (err e) = failed e

module _ {E : Type 0} (f : Format E) where
  -- ToDcbEvent
  unfoldable pub to_dcb_event : E → Result Event
  to_dcb_event e = f.marshal e >>= λ payload.
      ok (record { event_type = f.type_of e; tags = f.tags_of e; payload = payload })

  abbrev pub from_dcb_event : Event → Result E
  from_dcb_event d = f.unmarshal d.event_type d.payload

  -- An event that a query selects, wherever it stands.
  abbrev pub wanted : Query → E → Bool
  wanted q e =
      any (λ item. type_matches item.types (f.type_of e) && has_all item.tags (f.tags_of e)) q.items

  unfoldable pub run_plan :
      {X : Type 0} (p : Plan E X) (store : DcbStore) → Bool → store.S → store.S → Outcome store.S X
  unfolding read_events append_events to_dcb_event conclude
  run_plan p store ctx_done s₁ s₂ =
      let (h, outcome) =
        read_events from_dcb_event p.handler store s₁ ctx_done p.query none p.start [] in
      elim outcome [
        | err e ↦ failed e
        | ok reads ↦ elim (p.decide h) [
          | append e es ↦ conclude (append_events to_dcb_event store s₂ reads e es)
          | nothing ↦ unchanged
          | refuse x ↦ refused x
        ]
      ]

-- The state of a handler after events, up to one at which it stops.
unfoldable pub feed : {E H : Type 0} → (H → E → H × Bool) → H → List E → H
feed handler h [] = h
feed handler h (e ∷ es) = elim ((handler h e).1) [
  | true ↦ feed handler (handler h e).0 es
  | false ↦ (handler h e).0
]

-- What a command decides when it reads these events.
unfoldable pub decision : {E X : Type 0} → Format E → Plan E X → List E → Decision E X
unfolding feed
decision f p es = p.decide (feed p.handler p.start (filter (wanted f p.query) es))
