-- ===== src/Command/Plans/Sequential.antt =====
-- Clients that run commands on one store, with others between the read and the append of each.
use fairway.Base.{
  ℕ, suc, ◌≤◌, ◌≡◌, refl, sym, ap, subst, inl, inr, Bool, true, List, [], ◌∷◌, ◌++◌, arith, length,
}
use fairway.Dcb.Types.{Event, StoredEvent, ok, Result-cases, ok_injective}
use fairway.Dcb.Append.{validate}
use fairway.Dcb.Log.{IsAscending}
use fairway.Dcb.ReadAll.History.{IsLogBelow, IsLogBelow-append}
use fairway.Command.{serialize_events, append_events_no_condition}
use fairway.Command.Conditions.{log_store, serialized_some}
use fairway.Command.Reads.{log_read}
use fairway.Command.Plans.{
  Format, RoundTrips, Plan, append, appended, to_dcb_event, run_plan, decision,
}
use fairway.Command.Plans.Serial.{run_plan_serializable}
use fairway.Command.Plans.Written.{Written, Written-append, Written-stored_from}
use fairway.Command.Plans.Alone.{extend, run_plan-appended}

-- Every command of the application can run, with at most 65536 events to append.
pub record IsWellMade {E C X : Type 0} (f : Format E) (plan : C → Plan E X) : Type 0 where
  pub round_trips : RoundTrips f
  pub room :
      (c : C) (bs : List E) (e : E) (es : List E)
      → decision f (plan c) bs ≡ append e es
      → length (e ∷ es) ≤ 65536

module _ {E C X : Type 0} (f : Format E) (plan : C → Plan E X) (effect_of : E → Bool) where
  -- The logs that clients make of an empty one, by commands whose read met an earlier part of the log,
  -- and by appends of some events without a condition. The number is above the transaction versions
  -- so far.
  pub data Reaches : ℕ → List StoredEvent → Type 0 where
    empty : Reaches 0 []
    command :
        {n : ℕ} {log : List StoredEvent} (c : C) (tx : ℕ) (ctx_done : Bool)
        (old new l : List StoredEvent)
        → Reaches n log
        → n ≤ tx
        → log ≡ old ++ new
        → run_plan f (plan c) (log_store log_read tx) ctx_done old log ≡ appended l
        → Reaches (suc tx) l
    effect :
        {n : ℕ} {log : List StoredEvent} (e : E) (tx : ℕ) (l : List StoredEvent)
        → Reaches n log
        → n ≤ tx
        → effect_of e ≡ true
        → append_events_no_condition (to_dcb_event f) (log_store log_read tx) log e [] ≡ ok l
        → Reaches (suc tx) l

  -- The events that the commands append if they run one at a time.
  pub data Sequential : List E → Type 0 where
    empty : Sequential []
    command :
        (bs : List E) (c : C) (e : E) (es cs : List E)
        → Sequential bs
        → decision f (plan c) bs ≡ append e es
        → cs ≡ bs ++ e ∷ es
        → Sequential cs
    effect :
        (bs : List E) (e : E) (cs : List E)
        → Sequential bs
        → effect_of e ≡ true
        → cs ≡ bs ++ e ∷ []
        → Sequential cs

module _ {E : Type 0} (f : Format E) where
  serialize_events-length :
      (es : List E) (ds : List Event)
      → serialize_events (to_dcb_event f) es ≡ ok ds
      → length ds ≡ length es
  unfolding serialize_events
  serialize_events-length [] ds h = rw (← ok_injective h) refl
  serialize_events-length (e ∷ es) ds h = elim (Result-cases (to_dcb_event f e)) [
    | inr (failure, one) ↦ cc (rw (serialize_events, one) at h)
    | inl (d, one) ↦ elim (Result-cases (serialize_events (to_dcb_event f) es)) [
      | inr (failure, all) ↦ cc (rw (serialize_events, one, all) at h)
      | inl (rest, all) ↦
          rw (← ok_injective (rw (serialize_events, one, all) at h))
            (ap suc (serialize_events-length es rest all))
    ]
  ]

  extend-Written :
      (tx : ℕ) (log : List StoredEvent) (bs es : List E) (l : List StoredEvent)
      → length es ≤ 65536
      → Written f log bs
      → IsLogBelow tx log
      → extend f tx log es ≡ ok l
      → Written f l (bs ++ es) × IsLogBelow (suc tx) l
  extend-Written tx log bs es l room written below h =
      elim (Result-cases (serialize_events (to_dcb_event f) es)) [
        | inr (failure, s) ↦ cc (rw s at h)
        | inl (ds, s) ↦ elim (Result-cases (validate ds)) [
          | inr (failure, v) ↦ cc (rw (s, v) at h)
          | inl (u, v) ↦
              subst (λ x. Written f x (bs ++ es) × IsLogBelow (suc tx) x)
                (ok_injective (rw (s, v) at h))
                (
                  Written-append f log _ bs es written (Written-stored_from f tx 0 es ds s),
                  IsLogBelow-append tx log ds (rw (serialize_events-length es ds s) room) below,
                )
        ]
      ]

  append_events_no_condition-extend :
      (tx : ℕ) (log : List StoredEvent) (e : E) (l : List StoredEvent)
      → append_events_no_condition (to_dcb_event f) (log_store log_read tx) log e [] ≡ ok l
      → extend f tx log (e ∷ []) ≡ ok l
  unfolding append_events_no_condition
  append_events_no_condition-extend tx log e l h =
      elim (Result-cases (serialize_events (to_dcb_event f) (e ∷ []))) [
        | inr (failure, s) ↦ cc (rw s at h)
        | inl (ds, s) ↦ rw s (rw (s, serialized_some (to_dcb_event f) e [] ds s) at h)
      ]

  -- The log after an effect.
  pub effect-Written :
      (tx : ℕ) (log : List StoredEvent) (bs : List E) (e : E) (l : List StoredEvent)
      → Written f log bs
      → append_events_no_condition (to_dcb_event f) (log_store log_read tx) log e [] ≡ ok l
      → Written f l (bs ++ e ∷ [])
  effect-Written tx log bs e l written h =
      let done = append_events_no_condition-extend tx log e l h in
      elim (Result-cases (serialize_events (to_dcb_event f) (e ∷ []))) [
        | inr (failure, s) ↦ cc (rw s at done)
        | inl (ds, s) ↦ elim (Result-cases (validate ds)) [
          | inr (failure, v) ↦ cc (rw (s, v) at done)
          | inl (u, v) ↦
              subst (λ x. Written f x (bs ++ e ∷ [])) (ok_injective (rw (s, v) at done))
                (Written-append f log _ bs (e ∷ []) written
                  (Written-stored_from f tx 0 (e ∷ []) ds s))
        ]
      ]

  IsLogBelow-later :
      (n m : ℕ) (log : List StoredEvent) → n ≤ m → IsLogBelow n log → IsLogBelow m log
  IsLogBelow-later n m log le h = record {
    ascending = h.ascending;
    below = λ e i. omega (arith, le, h.below e i);
  }

module _ {E C X : Type 0} (f : Format E) (plan : C → Plan E X) (effect_of : E → Bool)
    (well_made : IsWellMade f plan) where
  -- What the clients have written.
  record History (n : ℕ) (log : List StoredEvent) : Type 0 where
    bs : List E
    written : Written f log bs
    one_by_one : Sequential f plan effect_of bs
    below : IsLogBelow n log

  Reaches-History :
      {n : ℕ} {log : List StoredEvent} → Reaches f plan effect_of n log → History n log
  Reaches-History empty = record {
    bs = [];
    written = tt;
    one_by_one = empty;
    below = record { ascending = tt; below = λ e i. elim i [ ] };
  }
  Reaches-History (effect {n} {log} e tx l r le is h) =
      let past = Reaches-History r in
      let (written, below) =
        extend-Written f tx log past.bs (e ∷ []) l (omega arith) past.written
          (IsLogBelow-later f n tx log le past.below)
          (append_events_no_condition-extend f tx log e l h) in
      record {
        bs = past.bs ++ e ∷ [];
        written = written;
        one_by_one = effect past.bs e _ past.one_by_one is refl;
        below = below;
      }
  Reaches-History (command {n} {log} c tx ctx_done old new l r le is ran) =
      let past = Reaches-History r in
      let low = IsLogBelow-later f n tx log le past.below in
      let alone =
        run_plan_serializable f (plan c) ctx_done tx old new l (subst IsAscending is low.ascending)
          (subst (λ s. run_plan f (plan c) (log_store log_read tx) ctx_done old s ≡ appended l) is
            ran) in
      let (e, es, decided, done) =
        run_plan-appended f (plan c) ctx_done tx log past.bs well_made.round_trips past.written l (
          subst (λ s. run_plan f (plan c) (log_store log_read tx) ctx_done s s ≡ appended l)
            (sym is) alone) in
      let (written, below) =
        extend-Written f tx log past.bs (e ∷ es) l (well_made.room c past.bs e es decided)
          past.written low done in
      record {
        bs = past.bs ++ e ∷ es;
        written = written;
        one_by_one = command past.bs c e es _ past.one_by_one decided refl;
        below = below;
      }

  -- If JSON round-trips and no command appends more than 65536 events, every log that clients reach, by
  -- commands with other clients' appends between their reads and their appends and by appends of effects
  -- without a condition, holds the events that some commands and effects append one at a time.
  pub Reaches-Sequential :
      {n : ℕ} {log : List StoredEvent}
      → Reaches f plan effect_of n log
      → (bs : List E) × Written f log bs × Sequential f plan effect_of bs
  Reaches-Sequential r = let past = Reaches-History r in (past.bs, past.written, past.one_by_one)
