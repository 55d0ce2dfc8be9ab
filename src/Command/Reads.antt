-- ===== src/Command/Reads.antt =====
-- What a read records of the log: the store on the log, and records that are fresh on it.
use fairway.Base.{
  ℕ, zero, suc, ◌≡◌, refl, sym, ◌⊎◌, inl, inr, Bool, true, false, Bool-cases, List, [], ◌∷◌, map,
  Option, none, some, arith, In, here, there, take, ltb, some_injective,
}
use fairway.Dcb.Types.{
  Versionstamp, Event, Query, ReadOptions, StoredEvent, Result, ok, Result-cases, ok_injective,
}
use fairway.Dcb.Log.{selects_any}
use fairway.Dcb.Read.Queue.{Ahead}
use fairway.Dcb.Read.Refinement.{selected}
use fairway.Dcb.ReadAll.{options_or_default}
use fairway.Command.{ReadRecord, track, dispatch}
use fairway.Command.Conditions.{covers}

-- A limit of 0 is none.
abbrev pub up_to {ℓ} : {A : Type ℓ} → ℕ → List A → List A
up_to zero xs = xs
up_to (suc n) xs = take (suc n) xs

-- A read of the log.
abbrev pub log_read : List StoredEvent → Query → Option ReadOptions → List (Result StoredEvent)
log_read log query opts =
    map ok (up_to (options_or_default opts).limit (selected log query (options_or_default opts)))

-- A record that covers what its query selects on the log, by the position of an event of the log.
pub record IsFresh (log : List StoredEvent) (r : ReadRecord) : Type 0 where
  pub covered :
      (e : StoredEvent)
      → In e log
      → selects_any r.query.items none e ≡ true
      → covers r.highest_seen_versionstamp e.position ≡ true
  pub seen :
      (p : Versionstamp)
      → r.highest_seen_versionstamp ≡ some p
      → (e : StoredEvent) × In e log × (e.position ≡ p)

track-cases :
    (reverse : Bool) (last : Option Versionstamp) (p q : Versionstamp)
    → track reverse last p ≡ some q
    → (last ≡ some q) ⊎ (p ≡ q)
unfolding track
track-cases false last p q h = inr (some_injective h)
track-cases true none p q h = inr (some_injective h)
track-cases true (some w) p q h = elim (Bool-cases (ltb w p)) [
  | inl l ↦ inr (some_injective (rw l at h))
  | inr l ↦ inl (rw l at h)
]

track-below : (q p : Versionstamp) → Ahead true q p → track true (some q) p ≡ some q
unfolding track
track-below q p h = ground (arith, h)

pub In-take {ℓ} : {A : Type ℓ} {a : A} (n : ℕ) (xs : List A) → In a (take n xs) → In a xs
In-take zero xs i = elim i [ ]
In-take (suc n) [] i = elim i [ ]
In-take (suc n) (x ∷ xs) (here e) = here e
In-take (suc n) (x ∷ xs) (there i) = there (In-take n xs i)

pub In-up_to {ℓ} : {A : Type ℓ} {a : A} (n : ℕ) (xs : List A) → In a (up_to n xs) → In a xs
In-up_to zero xs i = i
In-up_to (suc n) xs i = In-take (suc n) xs i

module _ {E H : Type 0} (deserialize : Event → Result E) (handler : H → E → H × Bool)
    (ctx_done : Bool) where
  -- The versionstamp of a read is that of an event that it was given.
  pub dispatch-seen :
      (reverse : Bool) (last : Option Versionstamp) (h : H) (es : List StoredEvent)
      (p : Versionstamp)
      → (dispatch deserialize handler ctx_done reverse last h (map ok es)).1 ≡ ok (some p)
      → (last ≡ some p) ⊎ ((e : StoredEvent) × In e es × (e.position ≡ p))
  unfolding dispatch
  dispatch-seen reverse last h [] p r = inl (ok_injective r)
  dispatch-seen reverse last h (e ∷ es) p r = elim (Result-cases (deserialize e.event)) [
    | inr (failure, d) ↦ cc (rw (dispatch, d) at r)
    | inl (ev, d) ↦ elim (Bool-cases ((handler h ev).1)) [
      | inl more ↦
          elim (dispatch-seen reverse (track reverse last e.position) (handler h ev).0 es p
            (rw (dispatch, d, more) at r)) [
              | inr (x, i, at) ↦ inr (x, there i, at)
              | inl tracked ↦ this_one (track-cases reverse last e.position p tracked)
            ]
      | inr stop ↦
          this_one
            (track-cases reverse last e.position p (ok_injective (rw (dispatch, d, stop) at r)))
    ]
  ]
    where
      this_one :
          (last ≡ some p) ⊎ (e.position ≡ p)
          → (last ≡ some p) ⊎ ((x : StoredEvent) × In x (e ∷ es) × (x.position ≡ p))
      this_one (inl was) = inl was
      this_one (inr at) = inr (e, here refl, at)

  -- A reverse read keeps its first versionstamp, wherever the handler stops.
  dispatch-first :
      (q : Versionstamp) (h : H) (es : List StoredEvent) (highest : Option Versionstamp)
      → ((e : StoredEvent) → In e es → Ahead true q e.position)
      → (dispatch deserialize handler ctx_done true (some q) h (map ok es)).1 ≡ ok highest
      → highest ≡ some q
  unfolding dispatch
  dispatch-first q h [] highest low r = sym (ok_injective r)
  dispatch-first q h (e ∷ es) highest low r = elim (Result-cases (deserialize e.event)) [
    | inr (failure, d) ↦ cc (rw (dispatch, d) at r)
    | inl (ev, d) ↦
        let kept : track true (some q) e.position ≡ some q =
          track-below q e.position (low e (here refl)) in
        elim (Bool-cases ((handler h ev).1)) [
          | inl more ↦
              dispatch-first q (handler h ev).0 es highest (λ x i. low x (there i))
                (rw (dispatch, d, more, kept) at r)
          | inr stop ↦ sym (ok_injective (rw (dispatch, d, stop, kept) at r))
        ]
  ]

  pub dispatch-reverse :
      (h : H) (x : StoredEvent) (es : List StoredEvent) (highest : Option Versionstamp)
      → ((e : StoredEvent) → In e es → Ahead true x.position e.position)
      → (dispatch deserialize handler ctx_done true none h (map ok (x ∷ es))).1 ≡ ok highest
      → highest ≡ some x.position
  unfolding dispatch track
  dispatch-reverse h x es highest low r = elim (Result-cases (deserialize x.event)) [
    | inr (failure, d) ↦ cc (rw (dispatch, d) at r)
    | inl (ev, d) ↦ elim (Bool-cases ((handler h ev).1)) [
      | inl more ↦
          dispatch-first x.position (handler h ev).0 es highest low (rw (dispatch, d, more) at r)
      | inr stop ↦ sym (ok_injective (rw (dispatch, d, stop) at r))
    ]
  ]
