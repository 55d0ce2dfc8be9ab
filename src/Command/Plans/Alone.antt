-- ===== src/Command/Plans/Alone.antt =====
-- A run with no other client between its read and its append, on a log that the application wrote.
use mathlib.Core.List.{append-nil}
use fairway.Base.{
  ℕ, ◌≡◌, refl, sym, ap, subst, ◌∙◌, inl, inr, Bool, false, List, [], ◌∷◌, ◌++◌, map, none, any,
  filter,
}
use fairway.Dcb.Types.{StoredEvent, Result, ok, ◌>>=◌, Result-cases}
use fairway.Dcb.Append.{validate, stored_from}
use fairway.Dcb.Log.{IsAscending}
use fairway.Dcb.Log.Refinement.{violates}
use fairway.Command.{ReadRecord, read_events, serialize_events, append_events, condition_of}
use fairway.Command.Conditions.{log_store, serialized_some}
use fairway.Command.Reads.{log_read}
use fairway.Command.Exact.{violates-fresh}
use fairway.Command.Plans.{
  Format, RoundTrips, Plan, Decision, append, nothing, refuse, Outcome, appended, unchanged,
  refused, appends, GivesUp, conclude, to_dcb_event, wanted, run_plan, feed, decision,
}
use fairway.Command.Plans.Serial.{first_read, run_plan-Ran, read_record}
use fairway.Command.Grown.{no_conflict}
use fairway.Command.Plans.Written.{Written, filter-Written, dispatch-feed}

-- An append to the log without a condition.
abbrev pub extend :
    {E : Type 0} → Format E → ℕ → List StoredEvent → List E → Result (List StoredEvent)
extend f tx log es = serialize_events (to_dcb_event f) es >>= λ ds.
    validate ds >>= λ _. ok (log ++ stored_from tx 0 ds)

-- The outcome of a decision on a log to which no other client appends.
abbrev pub outcome_of :
    {E X : Type 0} → Format E → ℕ → List StoredEvent → Decision E X → Outcome (List StoredEvent) X
outcome_of f tx log (append e es) = conclude (extend f tx log (e ∷ es))
outcome_of f tx log nothing = unchanged
outcome_of f tx log (refuse x) = refused x

append_events-extend :
    {E : Type 0} (f : Format E) (tx : ℕ) (log : List StoredEvent) (reads : List ReadRecord) (e : E)
    (es : List E)
    → any (violates log) (map condition_of reads) ≡ false
    → append_events (to_dcb_event f) (log_store log_read tx) log reads e es
      ≡ extend f tx log (e ∷ es)
unfolding append_events
append_events-extend f tx log reads e es free =
    elim (Result-cases (serialize_events (to_dcb_event f) (e ∷ es))) [
      | inr (failure, s) ↦ rw s refl
      | inl (ds, s) ↦ rw (s, serialized_some (to_dcb_event f) e es ds s, free) refl
    ]

module _ {E X : Type 0} (f : Format E) (p : Plan E X) (ctx_done : Bool) (tx : ℕ)
    (log : List StoredEvent) (bs : List E) (round_trips : RoundTrips f)
    (written : Written f log bs) where
  first_read-decides :
      (reads : List ReadRecord) × (first_read f p ctx_done (log_store log_read tx) log
        ≡ (feed p.handler p.start (filter (wanted f p.query) bs), ok reads))
  unfolding read_events
  first_read-decides =
      let (highest, h) =
        dispatch-feed f round_trips p.handler ctx_done none p.start _ _
          (filter-Written f p.query log bs written) in
      (record { query = p.query; highest_seen_versionstamp = highest } ∷ [], rw h refl)

  first_read-decision :
      p.decide (first_read f p ctx_done (log_store log_read tx) log).0 ≡ decision f p bs
  unfolding decision
  first_read-decision =
      ap (λ (r : p.H × Result (List ReadRecord)). p.decide r.0) first_read-decides.1

  -- If JSON round-trips, the log holds events of the application at ascending positions and the handler
  -- stops only where the command appends nothing, a run with no other client between its read and its
  -- append does what the command decides on the events that its query selects, in the order of the log: it
  -- appends its events to the log, or the error that serializes or validates them, or leaves the log as
  -- it is, or is refused.
  pub run_plan_exact :
      GivesUp p
      → IsAscending log
      → run_plan f p (log_store log_read tx) ctx_done log log
        ≡ outcome_of f tx log (decision f p bs)
  unfolding run_plan
  run_plan_exact gives_up ascending = at (decision f p bs) first_read-decision
    where
      read_ok : (first_read f p ctx_done (log_store log_read tx) log).1 ≡ ok (first_read-decides.0)
      read_ok = ap (λ (r : p.H × Result (List ReadRecord)). r.1) first_read-decides.1

      at :
          (d : Decision E X)
          → p.decide (first_read f p ctx_done (log_store log_read tx) log).0 ≡ d
          → run_plan f p (log_store log_read tx) ctx_done log log ≡ outcome_of f tx log d
      at nothing is = rw (run_plan, read_ok, is) refl
      at (refuse x) is = rw (run_plan, read_ok, is) refl
      at (append e es) is =
          let (r, one, of_query, fresh) =
            read_record f p ctx_done tx log _ ascending read_ok gives_up (ap appends is) in
          let free : violates log (condition_of r) ≡ false =
            subst (λ l. violates l (condition_of r) ≡ false) (append-nil log)
              (violates-fresh log [] (subst IsAscending (sym (append-nil log)) ascending) r
                fresh) in
          rw (run_plan, read_ok, is)
            (ap conclude (append_events-extend f tx log _ e es (rw (one, free) refl)))

  -- What a run that appends has decided.
  pub run_plan-appended :
      (l : List StoredEvent)
      → run_plan f p (log_store log_read tx) ctx_done log log ≡ appended l
      → (e : E) × (es : List E) × (decision f p bs ≡ append e es)
        × (extend f tx log (e ∷ es) ≡ ok l)
  run_plan-appended l ran =
      let r = run_plan-Ran f p ctx_done (log_store log_read tx) log log l ran in
      (
        r.event,
        r.remaining,
        sym first_read-decision ∙ r.decided,
        sym (
              append_events-extend f tx log r.reads r.event r.remaining
                (no_conflict (to_dcb_event f) tx log l r.reads r.event r.remaining r.done))
            ∙ r.done,
      )
