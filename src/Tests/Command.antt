-- ===== src/Tests/Command.antt =====
-- A command that read two events, and one that another client appended after them.
use fairway.Base.{ℕ, ◌≡◌, refl, Bool, true, false, [], ◌∷◌, none, some, codes, map}
use fairway.Dcb.Types.{Event, Query, StoredEvent, Result, ok}
use fairway.Dcb.Append.{validate}
use fairway.Command.{ReadRecord, dispatch, serialize_events}

abbrev joined : Event
joined = record { event_type = codes "Joined"; tags = codes "room" ∷ []; payload = [] }

abbrev at_position : ℕ → StoredEvent
at_position p = record { event = joined; position = p }

abbrev in_room : Query
in_room = record { items = (record { types = codes "Joined" ∷ []; tags = codes "room" ∷ [] }) ∷ [] }

-- The handler counts the events.
abbrev counts : ℕ → Event → ℕ × Bool
counts n e = (ℕ.suc n, true)

abbrev as_it_is : Event → Result Event
as_it_is e = ok e

dispatched :
    (dispatch as_it_is counts false false none 0 (map ok (at_position 3 ∷ at_position 5 ∷ []))).1
    ≡ ok (some 5)
unfolding dispatch
dispatched = refl

abbrev room_read : ReadRecord
room_read = record { query = in_room; highest_seen_versionstamp = some 5 }

serialized : serialize_events as_it_is (joined ∷ []) ≡ ok (joined ∷ [])
unfolding serialize_events
serialized = refl

joined_valid : validate (joined ∷ []) ≡ ok tt
unfolding validate
joined_valid = refl
