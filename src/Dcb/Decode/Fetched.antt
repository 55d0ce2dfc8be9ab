-- ===== src/Dcb/Decode/Fetched.antt =====
-- A stored event is fetched as it was appended.
use fairway.Base.{◌≡◌, refl, Bool, List, [], ◌∷◌, map, some, In, here}
use fairway.Fdb.{Str, text, bytes, plain, nested, Database}
use fairway.Dcb.Types.{Event, StoredEvent, ok}
use fairway.Dcb.Index.{new_store}
use fairway.Dcb.Append.{event_value}
use fairway.Dcb.Log.{Represents}
use fairway.Dcb.Decode.{all_strings, decode_event, decode_fields, fetch_event}

all_strings-map : (tags : List Str) → all_strings (map text tags) ≡ some tags
unfolding all_strings
all_strings-map [] = refl
all_strings-map (t ∷ tags) = rw (all_strings-map tags) refl

module _ (D : Database) (namespace : Str) where
  -- The value that an append writes for an event decodes to that event.
  pub decode_event-event_value :
      (ctx_done : Bool) (e : Event)
      → decode_event D ctx_done (event_value D (new_store namespace) e) ≡ ok (some e)
  unfolding decode_event event_value decode_fields
  decode_event-event_value ctx_done e =
      rw
        (
          decode_event,
          event_value,
          D.unpack-pack
              (plain (text e.event_type) ∷ nested (map text e.tags) ∷ plain (bytes e.payload) ∷ []),
          all_strings-map e.tags,
        )
        refl

  -- On a database that holds a log, fetching the position of an event of the log gives that event.
  pub fetch_event-In :
      (d : D.Db) (log : List StoredEvent) (ctx_done : Bool) (e : StoredEvent)
      → Represents D namespace d log
      → In e log
      → fetch_event D (new_store namespace) d ctx_done e.position ≡ ok (some e)
  unfolding fetch_event
  fetch_event-In d log ctx_done e rep i =
      rw (fetch_event, rep.complete e _ _ i (here refl), decode_event-event_value ctx_done e.event)
        refl
