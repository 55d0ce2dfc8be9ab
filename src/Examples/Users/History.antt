-- ===== src/Examples/Users/History.antt =====
-- The commands of users on one store, with other clients between the read and the append of each.
use fairway.Base.{
  ℕ, ◌≤◌, ◌≡◌, refl, sym, ap, subst, inl, inr, Bool, true, false, Bool-cases, ◌||◌, List, [], ◌∷◌,
  ◌++◌, length, filter, Option, none, some, arith,
}
use fairway.Fdb.{Str}
use fairway.Dcb.Types.{Result, StoredEvent}
use fairway.Command.Plans.{
  RoundTrips, Plan, append, append-injective, decision, Format, feed, wanted,
}
use fairway.Command.Plans.Written.{Written}
use fairway.Command.Plans.Sequential.{
  IsWellMade, Reaches, Sequential, empty, command, effect, Reaches-Sequential,
}
use fairway.Examples.Users.{
  UserData, user_registered, user_changed_their_email, user_changed_their_name,
  user_changed_details, user_changed_their_password, user_welcome_email_sent, UserEvent, UserError,
  user_format, RegisterUser, nobody, see_for_register, register_user,
}
use fairway.Examples.Users.Changes.{
  ChangeEmail, change_email, ChangeDetails, change_user_details, ChangePassword, change_password,
  see_for_password, no_names, no_emails, see_for_email, see_for_details, name_change,
  details_change, is_given,
}
use fairway.Examples.Users.Unique.{IsUnique}
use fairway.Examples.Users.Kept.{
  plain-keeps, register-keeps, email-keeps, details-keeps, password-keeps,
}
use fairway.Examples.Users.Decided.{
  decide_registration-appends, decide_email-appends, decide_details-appends,
}

-- A command with the times that its run finds.
pub data UserCommand : Type 0 where
  registers_user : RegisterUser → ℕ → UserCommand
  changes_email : ChangeEmail → ℕ → ℕ → UserCommand
  changes_details : ChangeDetails → ℕ → ℕ → UserCommand
  changes_password : ChangePassword → ℕ → UserCommand

abbrev pub plan : (Str → Str) → UserCommand → Plan UserEvent UserError
plan hash (registers_user cmd clock) = register_user cmd clock
plan hash (changes_email cmd checked_at clock) = change_email cmd checked_at clock
plan hash (changes_details cmd clock later) = change_user_details cmd clock later
plan hash (changes_password cmd clock) = change_password hash cmd clock

-- The event that the automation appends without a condition.
abbrev pub is_welcome : UserEvent → Bool
is_welcome e = elim e.body [ user_welcome_email_sent id ↦ true | _ ↦ false ]

module _ (marshal : UserEvent → Result (List ℕ)) (unmarshal : Str → List ℕ → Result UserEvent)
    (hash : Str → Str) where
  abbrev format : Format UserEvent
  format = user_format marshal unmarshal

  welcome-keeps :
      (bs : List UserEvent) (t : ℕ) (b : UserData)
      → IsUnique bs
      → is_welcome (record { occurred_at = t; body = b }) ≡ true
      → IsUnique (bs ++ record { occurred_at = t; body = b } ∷ [])
  welcome-keeps bs t (user_welcome_email_sent id) h is =
      plain-keeps marshal unmarshal hash bs
        (record { occurred_at = t; body = user_welcome_email_sent id }) h (λ i. refl) (λ u c. refl)
        (λ u c. refl)
  welcome-keeps bs t (user_registered id name email hashed) h is = cc is
  welcome-keeps bs t (user_changed_their_email id previous new) h is = cc is
  welcome-keeps bs t (user_changed_their_name id previous new) h is = cc is
  welcome-keeps bs t (user_changed_details id bio image) h is = cc is
  welcome-keeps bs t (user_changed_their_password id hashed) h is = cc is

  plan-keeps :
      (c : UserCommand) (bs : List UserEvent) (e : UserEvent) (es : List UserEvent)
      → IsUnique bs
      → decision format (plan hash c) bs ≡ append e es
      → IsUnique (bs ++ e ∷ es)
  plan-keeps (registers_user cmd clock) bs e es h d =
      register-keeps marshal unmarshal hash bs h cmd clock e es d
  plan-keeps (changes_email cmd checked_at clock) bs e es h d =
      email-keeps marshal unmarshal hash bs h cmd checked_at clock e es d
  plan-keeps (changes_details cmd clock later) bs e es h d =
      details-keeps marshal unmarshal hash bs h cmd clock later e es d
  plan-keeps (changes_password cmd clock) bs e es h d =
      password-keeps marshal unmarshal hash bs h cmd clock e es d

  Sequential-IsUnique :
      (bs : List UserEvent) → Sequential format (plan hash) is_welcome bs → IsUnique bs
  Sequential-IsUnique bs empty = record {
    ids = tt;
    names = λ u v t hu hv. cc hu;
    emails = λ u v t hu hv. cc hu;
  }
  Sequential-IsUnique bs (command old c e es cs before d is) =
      subst IsUnique (sym is) (plan-keeps c old e es (Sequential-IsUnique old before) d)
  Sequential-IsUnique bs (effect old e cs before welcome is) =
      subst IsUnique (sym is)
        (welcome-keeps old e.occurred_at e.body (Sequential-IsUnique old before) welcome)

  at_most_two :
      (cmd : ChangeDetails) (clock later : ℕ) (current : Str) (asked : Option Str)
      → cmd.username ≡ asked
      → length (name_change cmd clock current ++ details_change cmd later) ≤ 2
  unfolding name_change details_change
  at_most_two cmd clock later current none is =
      elim (Bool-cases (is_given cmd.bio || is_given cmd.image)) [
        | inl given ↦ rw (is, given) (omega arith)
        | inr absent ↦ rw (is, absent) (omega arith)
      ]
  at_most_two cmd clock later current (some text) is =
      elim (Bool-cases (is_given cmd.bio || is_given cmd.image)) [
        | inl given ↦ rw (is, given) (omega arith)
        | inr absent ↦ rw (is, absent) (omega arith)
      ]

  plan_room :
      (c : UserCommand) (bs : List UserEvent) (e : UserEvent) (es : List UserEvent)
      → decision format (plan hash c) bs ≡ append e es
      → length (e ∷ es) ≤ 65536
  unfolding decision register_user change_email change_user_details change_password
  plan_room (registers_user cmd clock) bs e es d =
      rw
        ((decide_registration-appends e es cmd clock
          (feed (see_for_register cmd) nobody
            (filter (wanted format (register_user cmd clock).query) bs))
          d).alone)
        (omega arith)
  plan_room (changes_email cmd checked_at clock) bs e es d =
      rw
        ((decide_email-appends e es cmd checked_at clock
          (feed (see_for_email cmd) no_emails
            (filter (wanted format (change_email cmd checked_at clock).query) bs))
          d).alone)
        (omega arith)
  plan_room (changes_details cmd clock later) bs e es d =
      let r =
        decide_details-appends e es cmd clock later
          (feed (see_for_details cmd) no_names
            (filter (wanted format (change_user_details cmd clock later).query) bs))
          d in
      omega (arith, ap length r.events, at_most_two cmd clock later r.current cmd.username refl)
  plan_room (changes_password cmd clock) bs e es d =
      elim (Bool-cases (
        feed (see_for_password hash cmd) false
          (filter (wanted format (change_password hash cmd clock).query) bs))) [
            | inr unknown ↦ cc (rw unknown at d)
            | inl known ↦ rw (append-injective (rw known at d)).1 (omega arith)
          ]

pub users-IsWellMade :
    (marshal : UserEvent → Result (List ℕ)) (unmarshal : Str → List ℕ → Result UserEvent)
    (hash : Str → Str)
    → RoundTrips (user_format marshal unmarshal)
    → IsWellMade (user_format marshal unmarshal) (plan hash)
users-IsWellMade marshal unmarshal hash round_trips = record {
  round_trips = round_trips;
  room = plan_room marshal unmarshal hash;
}

-- If JSON round-trips, then in every log that clients reach with the four commands of users, with other
-- clients' appends between the read and the append of each, and with welcome emails that are appended
-- without a condition, no two events register the same id, no two users have the same username, and no
-- two users have the same email.
pub users-IsUnique :
    (marshal : UserEvent → Result (List ℕ)) (unmarshal : Str → List ℕ → Result UserEvent)
    (hash : Str → Str) {n : ℕ} {log : List StoredEvent}
    → RoundTrips (user_format marshal unmarshal)
    → Reaches (user_format marshal unmarshal) (plan hash) is_welcome n log
    → (bs : List UserEvent) × Written (user_format marshal unmarshal) log bs × IsUnique bs
users-IsUnique marshal unmarshal hash round_trips r =
    let (bs, written, one_by_one) =
      Reaches-Sequential (user_format marshal unmarshal) (plan hash) is_welcome
        (users-IsWellMade marshal unmarshal hash round_trips) r in
    (bs, written, Sequential-IsUnique marshal unmarshal hash bs one_by_one)
