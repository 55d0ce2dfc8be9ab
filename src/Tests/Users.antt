-- ===== src/Tests/Users.antt =====
-- Users of examples/realworldapp: a registration, and a change of name after another client's registration.
use fairway.Base.{
  ℕ, ◌≡◌, refl, ap, false, List, [], ◌∷◌, ◌++◌, some, none, arith, codes, if◌then◌else◌,
}
use fairway.Base.Order.{ℕ_ord, list_ord, same}
use fairway.Fdb.{Str}
use fairway.Dcb.Types.{StoredEvent, Result, ok, err, no_data, ok_injective}
use fairway.Dcb.Append.{validate, stored_from}
use fairway.Command.{
  track, dispatch, read_events, serialize_events, append_events, append_events_no_condition,
}
use fairway.Command.Conditions.{log_store}
use fairway.Command.Reads.{log_read}
use fairway.Command.Plans.{Format, RoundTrips, appended, conclude, to_dcb_event, run_plan}
use fairway.Command.Plans.Written.{Written}
use fairway.Command.Plans.Sequential.{Reaches, empty, command, effect}
use fairway.Examples.Users.{
  UserData, user_registered, user_changed_their_email, user_changed_their_name,
  user_changed_details, user_changed_their_password, user_welcome_email_sent, UserEvent,
  user_format, type_of, tags_of, RegisterUser, register_user, see_for_register, put, is_held,
  decide_registration,
}
use fairway.Examples.Users.Changes.{
  ChangeDetails, see_for_details, decide_details, name_change, details_change, change_user_details,
}
use fairway.Examples.Users.Unique.{IsUnique}
use fairway.Examples.Users.History.{
  plan, is_welcome, registers_user, changes_details, users-IsUnique,
}
use fairway.Tests.Fields.{pack, unpack, unpack-pack}

-- Changes of details are not encoded.
abbrev pub marshal_body : UserData → Result (List ℕ)
marshal_body (user_registered i n e p) = ok (pack (i ∷ n ∷ e ∷ p ∷ []))
marshal_body (user_changed_their_email i p n) = ok (pack (i ∷ p ∷ n ∷ []))
marshal_body (user_changed_their_name i p n) = ok (pack (i ∷ p ∷ n ∷ []))
marshal_body (user_changed_their_password i p) = ok (pack (i ∷ p ∷ []))
marshal_body (user_welcome_email_sent i) = ok (pack (i ∷ []))
marshal_body (user_changed_details i b m) = err no_data

abbrev pub stamped : ℕ → Result (List ℕ) → Result (List ℕ)
stamped t (ok bytes) = ok (t ∷ bytes)
stamped t (err e) = err e

abbrev pub marshal : UserEvent → Result (List ℕ)
marshal e = stamped e.occurred_at (marshal_body e.body)

abbrev pub body_from : Str → List Str → Result UserData
body_from t (i ∷ []) = ok (user_welcome_email_sent i)
body_from t (i ∷ p ∷ []) = ok (user_changed_their_password i p)
body_from t (i ∷ p ∷ n ∷ []) =
    if same t (codes "UserChangedTheirEmail")
    then ok (user_changed_their_email i p n)
    else ok (user_changed_their_name i p n)
body_from t (i ∷ n ∷ e ∷ p ∷ []) = ok (user_registered i n e p)
body_from t _ = err no_data

abbrev pub fields_in : Str → ℕ
fields_in t =
    if same t (codes "UserRegistered")
    then 4
    else if same t (codes "UserWelcomeEmailSent")
    then 1
    else if same t (codes "UserChangedTheirPassword")
    then 2
    else 3

abbrev pub at_time : ℕ → Result UserData → Result UserEvent
at_time t (ok b) = ok (record { occurred_at = t; body = b })
at_time t (err e) = err e

abbrev pub unmarshal : Str → List ℕ → Result UserEvent
unmarshal t [] = err no_data
unmarshal t (time ∷ bytes) = at_time time (body_from t (unpack (fields_in t) bytes))

abbrev pub format : Format UserEvent
format = user_format marshal unmarshal

body-RoundTrips :
    (t : ℕ) (b : UserData) (payload : List ℕ)
    → marshal (record { occurred_at = t; body = b }) ≡ ok payload
    → unmarshal (type_of b) payload ≡ ok (record { occurred_at = t; body = b })
body-RoundTrips t (user_registered i n e p) payload h =
    rw (← ok_injective h, unpack-pack (i ∷ n ∷ e ∷ p ∷ [])) refl
body-RoundTrips t (user_changed_their_email i p n) payload h =
    rw (← ok_injective h, unpack-pack (i ∷ p ∷ n ∷ [])) refl
body-RoundTrips t (user_changed_their_name i p n) payload h =
    rw (← ok_injective h, unpack-pack (i ∷ p ∷ n ∷ [])) refl
body-RoundTrips t (user_changed_their_password i p) payload h =
    rw (← ok_injective h, unpack-pack (i ∷ p ∷ [])) refl
body-RoundTrips t (user_welcome_email_sent i) payload h = rw (← ok_injective h) (
    ap (λ (xs : List Str). at_time t (body_from (codes "UserWelcomeEmailSent") xs))
      (unpack-pack (i ∷ [])))
body-RoundTrips t (user_changed_details i b m) payload h = cc h

pub format-RoundTrips : RoundTrips format
format-RoundTrips e payload h = body-RoundTrips e.occurred_at e.body payload h

abbrev pub stored : ℕ → UserEvent → List ℕ → List StoredEvent
stored tx e payload =
    stored_from tx 0
      ((record { event_type = type_of e.body; tags = tags_of e.body; payload = payload }) ∷ [])

abbrev pub ann : RegisterUser
ann = record {
  id = codes "1";
  name = codes "ann";
  email = codes "ann@x.org";
  hashed_password = codes "h1";
  now = 5;
}

abbrev pub ann_registered : UserEvent
ann_registered = record {
  occurred_at = 6;
  body = user_registered (codes "1") (codes "ann") (codes "ann@x.org") (codes "h1");
}

abbrev pub bob : RegisterUser
bob = record {
  id = codes "2";
  name = codes "bob";
  email = codes "bob@x.org";
  hashed_password = codes "h2";
  now = 7;
}

abbrev pub bob_registered : UserEvent
bob_registered = record {
  occurred_at = 8;
  body = user_registered (codes "2") (codes "bob") (codes "bob@x.org") (codes "h2");
}

abbrev pub ann_renames : ChangeDetails
ann_renames = record {
  user_id = codes "1";
  username = some (codes "anna");
  bio = none;
  image = none;
}

abbrev pub ann_renamed : UserEvent
ann_renamed = record {
  occurred_at = 9;
  body = user_changed_their_name (codes "1") (codes "ann") (codes "anna");
}

abbrev pub welcome : UserEvent
welcome = record { occurred_at = 7; body = user_welcome_email_sent (codes "1") }

abbrev pub log₁ : List StoredEvent
log₁ =
    stored 1 ann_registered
      (6 ∷ pack (codes "1" ∷ codes "ann" ∷ codes "ann@x.org" ∷ codes "h1" ∷ []))

abbrev pub log₂ : List StoredEvent
log₂ = log₁ ++ stored 2 welcome (7 ∷ pack (codes "1" ∷ []))

abbrev pub bobs : List StoredEvent
bobs =
    stored 3 bob_registered
      (8 ∷ pack (codes "2" ∷ codes "bob" ∷ codes "bob@x.org" ∷ codes "h2" ∷ []))

abbrev pub log₄ : List StoredEvent
log₄ =
    (log₂ ++ bobs) ++ stored 4 ann_renamed (9 ∷ pack (codes "1" ∷ codes "ann" ∷ codes "anna" ∷ []))

ann_alone : run_plan format (register_user ann 6) (log_store log_read 1) false [] [] ≡ appended log₁
unfolding run_plan register_user see_for_register put is_held decide_registration read_events
    dispatch track append_events serialize_events to_dcb_event conclude validate
ann_alone = refl

ann_welcomed :
    append_events_no_condition (to_dcb_event format) (log_store log_read 2) log₁ welcome []
    ≡ ok log₂
unfolding append_events_no_condition serialize_events to_dcb_event validate
ann_welcomed = refl

bob_after :
    run_plan format (register_user bob 8) (log_store log_read 3) false log₁ log₂
    ≡ appended (log₂ ++ bobs)
unfolding run_plan register_user see_for_register put is_held decide_registration read_events
    dispatch track append_events serialize_events to_dcb_event conclude validate
bob_after = refl

-- The read for the new name came before Bob.
ann_renamed_after :
    run_plan format
      (change_user_details ann_renames 9 9)
      (log_store log_read 4)
      false
      log₂
      (log₂ ++ bobs)
    ≡ appended log₄
unfolding run_plan change_user_details see_for_details decide_details name_change details_change put
    read_events dispatch track append_events serialize_events to_dcb_event conclude validate
ann_renamed_after = refl

pub log-Reaches : (hash : Str → Str) → Reaches format (plan hash) is_welcome 5 log₄
log-Reaches hash =
    command (changes_details ann_renames 9 9) 4 false log₂ bobs log₄
      (command (registers_user bob 8) 3 false log₁ (stored 2 welcome (7 ∷ pack (codes "1" ∷ []))) _
        (effect welcome 2 log₂
          (command (registers_user ann 6) 1 false [] [] log₁ empty (omega arith) refl ann_alone)
          (omega arith) refl ann_welcomed)
        (omega arith) refl bob_after)
      (omega arith) refl ann_renamed_after

abbrev pub no_hash : Str → Str
no_hash password = password

users-IsUnique_example : (bs : List UserEvent) × Written format log₄ bs × IsUnique bs
users-IsUnique_example =
    users-IsUnique marshal unmarshal no_hash {n = 5} {log = log₄} format-RoundTrips
      (log-Reaches no_hash)
