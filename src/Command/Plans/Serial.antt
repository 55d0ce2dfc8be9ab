-- ===== src/Command/Plans/Serial.antt =====
-- A command with one read is serializable: an append that succeeds is decided as if it had run alone.
use fairway.Base.{
  ℕ, filter, ◌⊎◌, ◌≡◌, refl, ap, subst, ◌∙◌, inl, inr, Bool, true, false, Bool-cases, List, [], ◌∷◌,
  ◌++◌, map, Option, none, arith, any, Pairwise-append_left,
}
use fairway.Dcb.Types.{Versionstamp, Event, StoredEvent, Result, ok, err, Result-cases}
use fairway.Dcb.Log.{selects_any, IsAscending}
use fairway.Dcb.Log.Refinement.{violates}
use fairway.Command.{
  DcbStore, ReadRecord, track, dispatch, read_events, append_events, condition_of,
}
use fairway.Command.Conditions.{log_store}
use fairway.Command.Reads.{IsFresh, log_read}
use fairway.Command.Fresh.{plain, read_events-record}
use fairway.Command.Grown.{no_conflict, read_events-grown}
use fairway.Command.Plans.{
  Format, Plan, Decision, append, nothing, refuse, appended, appends, GivesUp, conclude,
  to_dcb_event, from_dcb_event, run_plan,
}

-- The handler, if it asked for every event.
abbrev keep_on : {E H : Type 0} → (H → E → H × Bool) → H → E → H × Bool
keep_on handler h e = ((handler h e).0, true)

module _ {E H : Type 0} (deserialize : Event → Result E) (handler : H → E → H × Bool)
    (goes : H → Bool) (ctx_done reverse : Bool) where
  -- A handler that has not stopped was given every event.
  dispatch-keep_on :
      (last : Option Versionstamp) (h : H) (rows : List (Result StoredEvent))
      → ((h : H) (e : E) → (handler h e).1 ≡ false → goes (handler h e).0 ≡ false)
      → goes (dispatch deserialize handler ctx_done reverse last h rows).0 ≡ true
      → dispatch deserialize (keep_on handler) ctx_done reverse last h rows
        ≡ dispatch deserialize handler ctx_done reverse last h rows
  unfolding dispatch
  dispatch-keep_on last h [] stops on = refl
  dispatch-keep_on last h (err e ∷ rows) stops on = refl
  dispatch-keep_on last h (ok e ∷ rows) stops on = elim (Result-cases (deserialize e.event)) [
    | inr (failure, d) ↦ rw (dispatch, d) refl
    | inl (ev, d) ↦ elim (Bool-cases ((handler h ev).1)) [
      | inl more ↦
          rw (dispatch, d, more)
            (dispatch-keep_on (track reverse last e.position) (handler h ev).0 rows stops
              (rw (dispatch, d, more) at on))
      | inr stop ↦ cc (rw (dispatch, d, stop) at on, stops h ev stop)
    ]
  ]

-- Wherever a handler stops, a read that goes on with more events gives the same; and if it does not stop,
-- it was given every event.
dispatch-either :
    {E H : Type 0} (deserialize : Event → Result E) (handler : H → E → H × Bool)
    (ctx_done reverse : Bool) (last : Option Versionstamp) (h : H) (es fs : List StoredEvent)
    → (dispatch deserialize handler ctx_done reverse last h (map ok (es ++ fs))
        ≡ dispatch deserialize handler ctx_done reverse last h (map ok es))
      ⊎ (dispatch deserialize (keep_on handler) ctx_done reverse last h (map ok es)
          ≡ dispatch deserialize handler ctx_done reverse last h (map ok es))
unfolding dispatch
dispatch-either deserialize handler ctx_done reverse last h [] fs = inr refl
dispatch-either deserialize handler ctx_done reverse last h (e ∷ es) fs =
    elim (Result-cases (deserialize e.event)) [
      | inr (failure, d) ↦ inl (rw (dispatch, d) refl)
      | inl (ev, d) ↦ elim (Bool-cases ((handler h ev).1)) [
        | inr stop ↦ inl (rw (dispatch, d, stop) refl)
        | inl more ↦
            elim (dispatch-either deserialize handler ctx_done reverse
              (track reverse last e.position) (handler h ev).0 es fs) [
                | inl same ↦ inl (rw (dispatch, d, more) same)
                | inr whole ↦ inr (rw (dispatch, d, more) whole)
              ]
      ]
    ]

pub conclude-appended :
    {S X : Type 0} (r : Result S) (s : S) → conclude {X = X} r ≡ appended s → r ≡ ok s
unfolding conclude
conclude-appended (ok x) s h = cc
conclude-appended (err e) s h = cc h

module _ {E X : Type 0} (f : Format E) (p : Plan E X) (ctx_done : Bool) where
  abbrev pub first_read : (store : DcbStore) → store.S → p.H × Result (List ReadRecord)
  first_read store s =
      read_events (from_dcb_event f) p.handler store s ctx_done p.query none p.start []

  -- What a run that appends has read and decided.
  pub record Ran (store : DcbStore) (s₁ s₂ s : store.S) : Type 0 where
    pub reads : List ReadRecord
    pub event : E
    pub remaining : List E
    pub read_done : (first_read store s₁).1 ≡ ok reads
    pub decided : p.decide (first_read store s₁).0 ≡ append event remaining
    pub done : append_events (to_dcb_event f) store s₂ reads event remaining ≡ ok s

  pub run_plan-Ran :
      (store : DcbStore) (s₁ s₂ s : store.S)
      → run_plan f p store ctx_done s₁ s₂ ≡ appended s
      → Ran store s₁ s₂ s
  unfolding run_plan
  run_plan-Ran store s₁ s₂ s h = elim (Result-cases ((first_read store s₁).1)) [
    | inr (e, r) ↦ cc (rw (run_plan, r) at h)
    | inl (reads, r) ↦ at reads r (p.decide (first_read store s₁).0) refl
  ]
    where
      at :
          (reads : List ReadRecord)
          → (first_read store s₁).1 ≡ ok reads
          → (d : Decision E X) → p.decide (first_read store s₁).0 ≡ d
          → Ran store s₁ s₂ s
      at reads r nothing is = cc (rw (run_plan, r, is) at h)
      at reads r (refuse x) is = cc (rw (run_plan, r, is) at h)
      at reads r (append event remaining) is = record {
        reads = reads;
        event = event;
        remaining = remaining;
        read_done = r;
        decided = is;
        done = conclude-appended _ s (rw (run_plan, r, is) at h);
      }

  run_plan-of_Ran :
      (store : DcbStore) (s₁ s₂ s : store.S)
      → Ran store s₁ s₂ s
      → run_plan f p store ctx_done s₁ s₂ ≡ appended s
  unfolding run_plan conclude
  run_plan-of_Ran store s₁ s₂ s r = rw (run_plan, r.read_done, r.decided, r.done) refl

module _ {E X : Type 0} (f : Format E) (p : Plan E X) (ctx_done : Bool) (tx : ℕ)
    (log : List StoredEvent) (reads : List ReadRecord) (ascending : IsAscending log)
    (read : (first_read f p ctx_done (log_store log_read tx) log).1 ≡ ok reads) where
  -- A read that was given every event is fresh on its log.
  whole_record :
      dispatch
          (from_dcb_event f)
          (keep_on p.handler)
          ctx_done
          false
          none
          p.start
          (log_read log p.query none)
        ≡ dispatch
            (from_dcb_event f)
            p.handler
            ctx_done
            false
            none
            p.start
            (log_read log p.query none)
      → (r : ReadRecord) × (reads ≡ r ∷ []) × (r.query ≡ p.query) × IsFresh log r
  unfolding read_events
  whole_record whole =
      read_events-record (from_dcb_event f) (keep_on p.handler) ctx_done tx log p.query none p.start
        [] reads (plain (λ h e. refl)) ascending (rw whole read)

  -- So is one whose handler leads to an append.
  pub read_record :
      GivesUp p
      → appends (p.decide (first_read f p ctx_done (log_store log_read tx) log).0) ≡ true
      → (r : ReadRecord) × (reads ≡ r ∷ []) × (r.query ≡ p.query) × IsFresh log r
  unfolding read_events
  read_record gives_up on = whole_record (
      dispatch-keep_on (from_dcb_event f) p.handler (λ h. appends (p.decide h)) ctx_done false none
        p.start (log_read log p.query none) gives_up on)

filter-append {ℓ} :
    {A : Type ℓ} (p : A → Bool) (xs ys : List A) → filter p (xs ++ ys) ≡ filter p xs ++ filter p ys
filter-append p [] ys = refl
filter-append p (x ∷ xs) ys = elim (Bool-cases (p x)) [
  | inl t ↦ rw (t, filter-append p xs ys) refl
  | inr f ↦ rw (f, filter-append p xs ys) refl
]

module _ {E X : Type 0} (f : Format E) (p : Plan E X) (ctx_done : Bool) (tx : ℕ)
    (old new l : List StoredEvent) where
  abbrev store : DcbStore
  store = log_store log_read tx

  -- The read of the whole log is that of the part, where the run still appends.
  same_read :
      IsAscending (old ++ new)
      → Ran f p ctx_done store old (old ++ new) l
      → first_read f p ctx_done store (old ++ new) ≡ first_read f p ctx_done store old
  unfolding read_events
  same_read ascending r =
      elim (dispatch-either (from_dcb_event f) p.handler ctx_done false none p.start
        (filter (selects_any p.query.items none) old)
        (filter (selects_any p.query.items none) new)) [
          | inl same ↦ rw (filter-append (selects_any p.query.items none) old new, same) refl
          | inr whole ↦
              let (a, one, of_query, fresh) =
                whole_record f p ctx_done tx old r.reads (Pairwise-append_left _ old new ascending)
                  r.read_done whole in
              let free : any (violates (old ++ new)) (map condition_of (a ∷ [])) ≡ false =
                subst (λ rs. any (violates (old ++ new)) (map condition_of rs) ≡ false) one
                  (no_conflict (to_dcb_event f) tx (old ++ new) l r.reads r.event r.remaining
                    r.done) in
              read_events-grown (from_dcb_event f) p.handler ctx_done tx old new p.query none
                p.start [] a refl ascending fresh of_query (ground (arith, free))
        ]

-- Other clients may append between the read of a run and its append. If positions ascend, a run that
-- appends to a log, after a read of an earlier part of it, makes the same log if it reads the whole log.
pub run_plan_serializable :
    {E X : Type 0} (f : Format E) (p : Plan E X) (ctx_done : Bool) (tx : ℕ)
    (old new l : List StoredEvent)
    → IsAscending (old ++ new)
    → run_plan f p (log_store log_read tx) ctx_done old (old ++ new) ≡ appended l
    → run_plan f p (log_store log_read tx) ctx_done (old ++ new) (old ++ new) ≡ appended l
run_plan_serializable {E} {X} f p ctx_done tx old new l ascending ran =
    let store = log_store log_read tx in
    let r = run_plan-Ran f p ctx_done store old (old ++ new) l ran in
    let same = same_read f p ctx_done tx old new l ascending r in
    run_plan-of_Ran f p ctx_done store (old ++ new) (old ++ new) l (record {
      reads = r.reads;
      event = r.event;
      remaining = r.remaining;
      read_done = ap (λ (x : p.H × Result (List ReadRecord)). x.1) same ∙ r.read_done;
      decided = ap (λ (x : p.H × Result (List ReadRecord)). p.decide x.0) same ∙ r.decided;
      done = r.done;
    })
