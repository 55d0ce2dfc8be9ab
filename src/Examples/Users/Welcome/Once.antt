-- ===== src/Examples/Users/Welcome/Once.antt =====
-- The welcome email of user_registered.go is sent once, if the runs follow each other.
use fairway.Base.{
  ℕ, ◌≡◌, refl, sym, ap, ◌∙◌, inl, inr, Bool, true, false, Bool-cases, ◌||◌, List, [], ◌∷◌, ◌++◌,
  Option, none, some, any, any-append, filter, arith, if◌then◌else◌,
}
use fairway.Base.Order.{ℕ_ord, list_ord, same, same_self}
use fairway.Fdb.{Str}
use fairway.Dcb.Types.{StoredEvent, Result, ok}
use fairway.Command.{ReadRecord, read_events, append_events_no_condition}
use fairway.Command.Conditions.{log_store}
use fairway.Command.Reads.{log_read}
use fairway.Command.Plans.{
  Format, RoundTrips, Outcome, appended, unchanged, refused, conclude, to_dcb_event, from_dcb_event,
  wanted, feed,
}
use fairway.Command.Plans.Serial.{conclude-appended}
use fairway.Command.Plans.Sequential.{effect-Written}
use fairway.Command.Plans.Written.{Written, filter-Written, dispatch-feed}
use fairway.Examples.Users.{
  UserData, user_registered, user_changed_their_email, user_changed_their_name,
  user_changed_details, user_changed_their_password, user_welcome_email_sent, UserEvent,
  user_format,
}
use fairway.Examples.Users.Welcome.{
  WelcomeCommand, note_sent, welcome_query, welcome_event, run_welcome,
}

abbrev is_welcome_of : Str → UserData → Bool
is_welcome_of user_id (user_welcome_email_sent id) = same user_id id
is_welcome_of user_id (user_registered id name email hashed) = false
is_welcome_of user_id (user_changed_their_email id previous new) = false
is_welcome_of user_id (user_changed_their_name id previous new) = false
is_welcome_of user_id (user_changed_details id bio image) = false
is_welcome_of user_id (user_changed_their_password id hashed) = false

-- The events say that the user was welcomed.
abbrev pub is_welcomed : Str → List UserEvent → Bool
is_welcomed user_id es = any (λ e. is_welcome_of user_id e.body) es

module _ (marshal : UserEvent → Result (List ℕ)) (unmarshal : Str → List ℕ → Result UserEvent)
    (cmd : WelcomeCommand) where
  abbrev format : Format UserEvent
  format = user_format marshal unmarshal

  abbrev sent_in : List UserEvent → Bool
  sent_in es = feed note_sent false (filter (wanted format (welcome_query cmd.user_id)) es)

  sent_step :
      (t : ℕ) (b : UserData) (es : List UserEvent)
      → sent_in es ≡ is_welcomed cmd.user_id es
      → sent_in (record { occurred_at = t; body = b } ∷ es)
        ≡ (is_welcome_of cmd.user_id b || is_welcomed cmd.user_id es)
  unfolding feed note_sent
  sent_step t (user_welcome_email_sent id) es ih = elim (Bool-cases (same cmd.user_id id)) [
    | inl s ↦ rw s refl
    | inr s ↦ rw s ih
  ]
  sent_step t (user_registered id name email hashed) es ih = ih
  sent_step t (user_changed_their_email id previous new) es ih = ih
  sent_step t (user_changed_their_name id previous new) es ih = ih
  sent_step t (user_changed_details id bio image) es ih = ih
  sent_step t (user_changed_their_password id hashed) es ih = ih

  sent_all : (es : List UserEvent) → sent_in es ≡ is_welcomed cmd.user_id es
  unfolding feed
  sent_all [] = refl
  sent_all (e ∷ es) = sent_step e.occurred_at e.body es (sent_all es)

  -- The outcome of a run that has called the sender.
  abbrev sent_outcome :
      ℕ → List StoredEvent → ℕ → Option Str → Bool × Outcome (List StoredEvent) Str
  sent_outcome tx later clock (some e) = (true, refused e)
  sent_outcome tx later clock none = (
    true,
    conclude (
        append_events_no_condition (to_dcb_event format) (log_store log_read tx) later
          (welcome_event cmd.user_id clock) []),
  )

  sent_outcome-appended :
      (tx : ℕ) (later : List StoredEvent) (clock : ℕ) (answer : Option Str) (l : List StoredEvent)
      → sent_outcome tx later clock answer ≡ (true, appended l)
      → append_events_no_condition
          (to_dcb_event format)
          (log_store log_read tx)
          later
          (welcome_event cmd.user_id clock)
          []
        ≡ ok l
  sent_outcome-appended tx later clock (some e) l h = cc h
  sent_outcome-appended tx later clock none l h =
      conclude-appended _ l (ap (λ (r : Bool × Outcome (List StoredEvent) Str). r.1) h)

  module _ (send : Str → Str → Option Str) (ctx_done : Bool) (clock tx : ℕ)
      (round_trips : RoundTrips format) where
    read_welcome :
        (log : List StoredEvent) (bs : List UserEvent)
        → Written format log bs
        → (reads : List ReadRecord) × (read_events
              (from_dcb_event format)
              note_sent
              (log_store log_read tx)
              log
              ctx_done
              (welcome_query cmd.user_id)
              none
              false
              []
            ≡ (is_welcomed cmd.user_id bs, ok reads))
    unfolding read_events
    read_welcome log bs written =
        let (highest, h) =
          dispatch-feed format round_trips note_sent ctx_done none false _ _
            (filter-Written format (welcome_query cmd.user_id) log bs written) in
        let reads : List ReadRecord =
          record { query = welcome_query cmd.user_id; highest_seen_versionstamp = highest } ∷ [] in
        (reads, rw h (ap (λ (b : Bool). (b, ok reads)) (sent_all bs)))

    -- What a run does whose read met a log.
    run_welcome-splits :
        (log later : List StoredEvent) (bs : List UserEvent)
        → Written format log bs
        → run_welcome format send (log_store log_read tx) ctx_done cmd clock log later ≡ (
            if is_welcomed cmd.user_id bs
            then (false, unchanged)
            else sent_outcome tx later clock (send cmd.email cmd.name))
    unfolding run_welcome
    run_welcome-splits log later bs written =
        let (reads, h) = read_welcome log bs written in
        let read_ok = ap (λ (r : Bool × Result (List ReadRecord)). r.1) h in
        let read = ap (λ (r : Bool × Result (List ReadRecord)). r.0) h in
        elim (Bool-cases (is_welcomed cmd.user_id bs)) [
          | inl sent ↦ rw (run_welcome, read_ok, read, sent) refl
          | inr unsent ↦ rw (run_welcome, read_ok, read, unsent) refl
        ]

  -- If JSON round-trips, and a run whose read and append met logs of events of the application appends,
  -- then no event of the log of its read says that the user was welcomed, and a run whose read meets the
  -- log that it made hands no email to the sender and appends nothing.
  pub welcome_once :
      (send : Str → Str → Option Str) (ctx_done : Bool) (clock tx : ℕ)
      (log later l after : List StoredEvent) (bs cs : List UserEvent)
      → RoundTrips format
      → Written format log bs
      → Written format later cs
      → run_welcome format send (log_store log_read tx) ctx_done cmd clock log later
        ≡ (true, appended l)
      → (is_welcomed cmd.user_id bs ≡ false)
        × (run_welcome format send (log_store log_read tx) ctx_done cmd clock l after
            ≡ (false, unchanged))
  welcome_once send ctx_done clock tx log later l after bs cs round_trips written written' ran =
      let split = run_welcome-splits send ctx_done clock tx round_trips log later bs written in
      elim (Bool-cases (is_welcomed cmd.user_id bs)) [
        | inl sent ↦ cc (rw sent at split, ran)
        | inr unsent ↦
            let done =
              sent_outcome-appended tx later clock (send cmd.email cmd.name) l
                (sym (rw unsent at split) ∙ ran) in
            let says : is_welcomed cmd.user_id (cs ++ welcome_event cmd.user_id clock ∷ []) ≡ true =
              rw
                (
                  any-append (λ (e : UserEvent). is_welcome_of cmd.user_id e.body) cs
                      (welcome_event cmd.user_id clock ∷ []),
                  same_self cmd.user_id,
                )
                (ground arith) in
            (
              unsent,
              run_welcome-splits send ctx_done clock tx round_trips l after _ (
                    effect-Written format tx later cs (welcome_event cmd.user_id clock) l written'
                      done)
                  ∙ rw says refl,
            )
      ]
