-- ===== src/Command/Conditions.antt =====
-- The conditions of an append cover what was read: the highest versionstamp is above every event that
-- was read, and an append after a conflicting one fails.
use fairway.Base.{
  ℕ, ◌≡◌, refl, Bool, true, false, inl, inr, List, [], ◌∷◌, map, Option, none, some, arith, All, In,
  any, any_of_In, In-map_of, leb,
}
use fairway.Dcb.Types.{
  Result-cases, ok_injective, Versionstamp, Event, Query, ReadOptions, StoredEvent, Result, ok, err,
  append_condition_failed, is_empty,
}
use fairway.Dcb.Append.{validate}
use fairway.Dcb.Log.{selects_any}
use fairway.Dcb.Log.Refinement.{append_log, violates}
use fairway.Command.{
  DcbStore, ReadRecord, track, dispatch, serialize_events, append_events, condition_of,
}

-- The tracked versionstamp is at or above a position.
abbrev pub covers : Option Versionstamp → Versionstamp → Bool
covers none p = false
covers (some q) p = leb p q

abbrev not_above : Option Versionstamp → Versionstamp → Bool
not_above none p = true
not_above (some q) p = leb q p

-- The events ascend, from the tracked versionstamp on.
abbrev pub Ascends : Option Versionstamp → List StoredEvent → Type 0
Ascends last [] = Unit
Ascends last (e ∷ es) = (not_above last e.position ≡ true) × Ascends (some e.position) es

track-covers :
    (reverse : Bool) (last : Option Versionstamp) (p : Versionstamp)
    → covers (track reverse last p) p ≡ true
unfolding track
track-covers false last p = ground arith
track-covers true none p = ground arith
track-covers true (some q) p = ground arith

track-keeps :
    (reverse : Bool) (last : Option Versionstamp) (p x : Versionstamp)
    → (reverse ≡ false → not_above last p ≡ true)
    → covers last x ≡ true
    → covers (track reverse last p) x ≡ true
unfolding track
track-keeps false none p x h c = ground (arith, c)
track-keeps false (some q) p x h c = let b : leb q p ≡ true = h refl in ground (arith, b, c)
track-keeps true none p x h c = ground (arith, c)
track-keeps true (some q) p x h c = ground (arith, c)

module _ {E H : Type 0} (deserialize : Event → Result E) (handler : H → E → H × Bool)
    (goes_on : (h : H) (e : E) → (handler h e).1 ≡ true) where
  later_order :
      (reverse : Bool) (last : Option Versionstamp) (e : StoredEvent) (es : List StoredEvent)
      → (reverse ≡ false → Ascends last (e ∷ es))
      → reverse ≡ false
      → Ascends (track reverse last e.position) es
  unfolding track
  later_order false last e es h r = (h refl).1
  later_order true last e es h r = cc

  dispatch-covered :
      (ctx_done reverse : Bool) (last : Option Versionstamp) (h : H) (es : List StoredEvent)
      (highest : Option Versionstamp)
      → (reverse ≡ false → Ascends last es)
      → (dispatch deserialize handler ctx_done reverse last h (map ok es)).1 ≡ ok highest
      → All (λ e. covers highest e.position ≡ true) es
        × ((x : Versionstamp) → covers last x ≡ true → covers highest x ≡ true)
  unfolding dispatch
  dispatch-covered ctx_done reverse last h [] highest order r = (tt, λ x c. rw (← ok_injective r) c)
  dispatch-covered ctx_done reverse last h (e ∷ es) highest order r =
      elim (Result-cases (deserialize e.event)) [
        | inr (failure, d) ↦ cc (rw (dispatch, d) at r)
        | inl (ev, d) ↦
            let (all, keeps) =
              dispatch-covered ctx_done reverse (track reverse last e.position) (handler h ev).0 es
                highest (later_order reverse last e es order)
                (rw (dispatch, d, goes_on h ev) at r) in
            (
              (keeps e.position (track-covers reverse last e.position), all),
              λ x c. keeps x (track-keeps reverse last e.position x (λ f. (order f).0) c),
            )
      ]

-- A read whose handler asks for every event, and which succeeds, records a versionstamp that is at or
-- above the position of every event that the store yielded: in reverse for events in any order, and
-- forward for events that ascend.
pub dispatch-covers :
    {E H : Type 0} (deserialize : Event → Result E) (handler : H → E → H × Bool)
    (ctx_done reverse : Bool) (h : H) (es : List StoredEvent) (highest : Option Versionstamp)
    → ((h : H) (e : E) → (handler h e).1 ≡ true)
    → (reverse ≡ false → Ascends none es)
    → (dispatch deserialize handler ctx_done reverse none h (map ok es)).1 ≡ ok highest
    → All (λ e. covers highest e.position ≡ true) es
dispatch-covers deserialize handler ctx_done reverse h es highest goes_on order r =
    (dispatch-covered deserialize handler goes_on ctx_done reverse none h es highest order r).0

-- The store on the log, at a transaction version, with a context that does not end. Its reads are not
-- used.
abbrev pub log_store :
    (List StoredEvent → Query → Option ReadOptions → List (Result StoredEvent)) → ℕ → DcbStore
log_store read tx = record {
  S = List StoredEvent;
  read = read;
  append = λ log events conditions. append_log log (λ k. false) tx events conditions;
}

pub serialized_some :
    {E : Type 0} (serialize : E → Result Event) (e : E) (es : List E) (ds : List Event)
    → serialize_events serialize (e ∷ es) ≡ ok ds
    → is_empty ds ≡ false
unfolding serialize_events
serialized_some serialize e es ds h = elim (Result-cases (serialize e)) [
  | inr (failure, f) ↦ cc (rw (serialize_events, f) at h)
  | inl (d, one) ↦ elim (Result-cases (serialize_events serialize es)) [
    | inr (failure, f) ↦ cc (rw (serialize_events, one, f) at h)
    | inl (rest, all) ↦ rw (← ok_injective (rw (serialize_events, one, all) at h)) refl
  ]
]

-- If the log holds an event that the query of a read selects after the versionstamp that was recorded
-- for it, an append of events that serialize and are valid fails with the append condition.
pub append_events_conflict :
    {E : Type 0} (serialize : E → Result Event)
    (read : List StoredEvent → Query → Option ReadOptions → List (Result StoredEvent)) (tx : ℕ)
    (log : List StoredEvent) (reads : List ReadRecord) (r : ReadRecord) (found : StoredEvent)
    (event : E) (remaining : List E) (events : List Event)
    → serialize_events serialize (event ∷ remaining) ≡ ok events
    → validate events ≡ ok tt
    → In r reads
    → In found log
    → selects_any r.query.items r.highest_seen_versionstamp found ≡ true
    → append_events serialize (log_store read tx) log reads event remaining
      ≡ err append_condition_failed
unfolding append_events
append_events_conflict serialize read tx log reads r found event remaining events ser valid i j
      hit =
    let violated : any (violates log) (map condition_of reads) ≡ true =
      any_of_In (violates log) (map condition_of reads) (In-map_of condition_of reads i)
        (any_of_In (selects_any r.query.items r.highest_seen_versionstamp) log j hit) in
    rw (ser, serialized_some serialize event remaining events ser, valid, violated) refl
