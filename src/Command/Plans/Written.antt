-- ===== src/Command/Plans/Written.antt =====
-- Logs of events that the application wrote, and what the handler of a read makes of them.
use fairway.Base.{
  ℕ, suc, ◌≡◌, refl, sym, ap, subst, inl, inr, Bool, false, Bool-cases, List, [], ◌∷◌, ◌++◌, map,
  Option, none, some, filter,
}
use fairway.Dcb.Types.{
  Versionstamp, Event, QueryItem, Query, StoredEvent, ok, Result-cases, ok_injective,
}
use fairway.Dcb.Append.{stored_from}
use fairway.Dcb.Log.{selects_any}
use fairway.Command.{track, dispatch, serialize_events}
use fairway.Command.Plans.{Format, RoundTrips, to_dcb_event, from_dcb_event, wanted, feed}

-- The log holds these events of the application, in this order.
abbrev pub Written : {E : Type 0} → Format E → List StoredEvent → List E → Type 0
Written f [] [] = Unit
Written f [] (b ∷ bs) = ⊥
Written f (s ∷ ss) [] = ⊥
Written f (s ∷ ss) (b ∷ bs) = (to_dcb_event f b ≡ ok s.event) × Written f ss bs

module _ {E : Type 0} (f : Format E) where
  pub Written-append :
      (ss ts : List StoredEvent) (bs cs : List E)
      → Written f ss bs
      → Written f ts cs
      → Written f (ss ++ ts) (bs ++ cs)
  Written-append [] ts [] cs h k = k
  Written-append [] ts (b ∷ bs) cs h k = absurd h
  Written-append (s ∷ ss) ts [] cs h k = absurd h
  Written-append (s ∷ ss) ts (b ∷ bs) cs h k = (h.0, Written-append ss ts bs cs h.1 k)

  pub Written-stored_from :
      (tx i : ℕ) (es : List E) (ds : List Event)
      → serialize_events (to_dcb_event f) es ≡ ok ds
      → Written f (stored_from tx i ds) es
  unfolding serialize_events
  Written-stored_from tx i [] ds h = rw (← ok_injective h) tt
  Written-stored_from tx i (e ∷ es) ds h = elim (Result-cases (to_dcb_event f e)) [
    | inr (failure, one) ↦ cc (rw (serialize_events, one) at h)
    | inl (d, one) ↦ elim (Result-cases (serialize_events (to_dcb_event f) es)) [
      | inr (failure, all) ↦ cc (rw (serialize_events, one, all) at h)
      | inl (rest, all) ↦
          subst (λ l. Written f (stored_from tx i l) (e ∷ es))
            (ok_injective (rw (serialize_events, one, all) at h))
            (one, Written-stored_from tx (suc i) es rest all)
    ]
  ]

  -- What the store holds of an event of the application.
  pub to_dcb_event-parts :
      (b : E) (d : Event)
      → to_dcb_event f b ≡ ok d
      → (payload : List ℕ) × (f.marshal b ≡ ok payload)
        × (d ≡ record { event_type = f.type_of b; tags = f.tags_of b; payload = payload })
  unfolding to_dcb_event
  to_dcb_event-parts b d h = elim (Result-cases (f.marshal b)) [
    | inr (failure, m) ↦ cc (rw m at h)
    | inl (payload, m) ↦ (payload, m, sym (ok_injective (rw m at h)))
  ]

  selects_any-wanted :
      (items : List QueryItem) (s : StoredEvent) (b : E)
      → (s.event.event_type ≡ f.type_of b) × (s.event.tags ≡ f.tags_of b)
      → selects_any items none s ≡ wanted f (record { items = items }) b
  selects_any-wanted [] s b h = refl
  selects_any-wanted (item ∷ items) s b h = rw (selects_any-wanted items s b h, h.0, h.1) refl

  pub filter-Written :
      (q : Query) (ss : List StoredEvent) (bs : List E)
      → Written f ss bs
      → Written f (filter (selects_any q.items none) ss) (filter (wanted f q) bs)
  filter-Written q [] [] h = tt
  filter-Written q [] (b ∷ bs) h = absurd h
  filter-Written q (s ∷ ss) [] h = absurd h
  filter-Written q (s ∷ ss) (b ∷ bs) h =
      let (payload, m, parts) = to_dcb_event-parts b s.event h.0 in
      let same =
        selects_any-wanted q.items s b
          (ap (λ (d : Event). d.event_type) parts, ap (λ (d : Event). d.tags) parts) in
      elim (Bool-cases (wanted f q b)) [
        | inl yes_b ↦ rw (same, yes_b) (h.0, filter-Written q ss bs h.1)
        | inr no_b ↦ rw (same, no_b) (filter-Written q ss bs h.1)
      ]

  module _ (round_trips : RoundTrips f) {H : Type 0} (handler : H → E → H × Bool)
      (ctx_done : Bool) where
    pub dispatch-feed :
        (last : Option Versionstamp) (h : H) (ss : List StoredEvent) (bs : List E)
        → Written f ss bs
        → (highest : Option Versionstamp) × (dispatch
              (from_dcb_event f)
              handler
              ctx_done
              false
              last
              h
              (map ok ss)
            ≡ (feed handler h bs, ok highest))
    unfolding dispatch track feed
    dispatch-feed last h [] [] w = (last, refl)
    dispatch-feed last h [] (b ∷ bs) w = absurd w
    dispatch-feed last h (s ∷ ss) [] w = absurd w
    dispatch-feed last h (s ∷ ss) (b ∷ bs) w =
        let (payload, m, parts) = to_dcb_event-parts b s.event w.0 in
        let reads : from_dcb_event f s.event ≡ ok b = rw parts (round_trips b payload m) in
        elim (Bool-cases ((handler h b).1)) [
          | inl more ↦
              let (highest, rest) = dispatch-feed (some s.position) (handler h b).0 ss bs w.1 in
              (highest, rw (dispatch, feed, reads, more) rest)
          | inr stop ↦ (some s.position, rw (dispatch, feed, reads, stop) refl)
        ]
