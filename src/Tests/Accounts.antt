-- ===== src/Tests/Accounts.antt =====
-- Logins, tokens, welcome emails and profiles of examples/realworldapp.
use fairway.Base.{◌≡◌, ◌↔◌, refl, true, false, List, [], ◌∷◌, ◌++◌, Option, none, codes}
use fairway.Base.Order.{ℕ_ord, list_ord, same}
use fairway.Fdb.{Str}
use fairway.Dcb.Types.{StoredEvent, ok}
use fairway.Dcb.Append.{validate}
use fairway.Command.{track, dispatch, read_events, serialize_events, append_events_no_condition}
use fairway.Command.Conditions.{log_store}
use fairway.Command.Reads.{log_read}
use fairway.Command.Plans.{appended, unchanged, conclude, to_dcb_event}
use fairway.Command.Plans.Written.{Written}
use fairway.Examples.Users.{UserEvent}
use fairway.Examples.Http.{no_response}
use fairway.Examples.Users.Views.{LoginBody, login_handler, grant}
use fairway.Examples.Users.Login.{registered_with, login_exact}
use fairway.Examples.Users.Handlers.{extract_user_id}
use fairway.Examples.Users.Handlers.Tokens.{extract_user_id-accepts}
use fairway.Examples.Users.Welcome.{WelcomeCommand, note_sent, run_welcome}
use fairway.Examples.Users.Welcome.Once.{is_welcomed, welcome_once}
use fairway.Tests.Fields.{pack}
use fairway.Examples.Users.Views.{Profile}
use fairway.Examples.Users.Emails.{email_of}
use fairway.Examples.Users.Names.{name_of}
use fairway.Examples.Users.Profiles.{Agrees}
use fairway.Examples.Users.CurrentUser.{show, current_user_shows}
use fairway.Examples.Users.Views.{current_user_handler}
use fairway.Tests.Users.{
  ann_registered, bob_registered, bobs, format, format-RoundTrips, log-Reaches, log₁, log₂, log₄,
  marshal, no_hash, stored, unmarshal, welcome,
}

abbrev bobs_log : List StoredEvent
bobs_log = log₂ ++ bobs

bobs_log-Written : Written format bobs_log (ann_registered ∷ welcome ∷ bob_registered ∷ [])
unfolding to_dcb_event
bobs_log-Written = (refl, (refl, (refl, tt)))

abbrev bob_logs_in : LoginBody
bob_logs_in = record { email = codes "bob@x.org"; password = codes "h2" }

login_exact_example :
    login_handler same ok format (log_store log_read 5) bobs_log false (ok bob_logs_in) no_response
    ≡ grant same ok
        (codes "h2")
        (registered_with (codes "bob@x.org") (ann_registered ∷ welcome ∷ bob_registered ∷ []))
        no_response
login_exact_example =
    login_exact marshal unmarshal same ok false 5 bobs_log
      (ann_registered ∷ welcome ∷ bob_registered ∷ []) bob_logs_in no_response format-RoundTrips
      bobs_log-Written

extract_user_id-accepts_example : (extract_user_id ok (codes "Token ann") ≡ ok (codes "ann")) ↔ (
    (token : Str) × (codes "Token ann" ≡ codes "Token " ++ token) × (ok token ≡ ok (codes "ann")))
extract_user_id-accepts_example = extract_user_id-accepts ok (codes "Token ann") (codes "ann")

abbrev no_mail : Str → Str → Option Str
no_mail email name = none

abbrev welcome_ann : WelcomeCommand
welcome_ann = record { user_id = codes "1"; email = codes "ann@x.org"; name = codes "ann" }

-- Bob registers while Ann's email is sent.
abbrev with_bob : List StoredEvent
with_bob = log₁ ++ bobs

abbrev ann_is_welcomed : List StoredEvent
ann_is_welcomed = with_bob ++ stored 4 welcome (7 ∷ pack (codes "1" ∷ []))

ann_welcomed_late :
    run_welcome format no_mail (log_store log_read 4) false welcome_ann 7 log₁ with_bob
    ≡ (true, appended ann_is_welcomed)
unfolding run_welcome note_sent read_events dispatch track append_events_no_condition
    serialize_events to_dcb_event conclude validate
ann_welcomed_late = refl

log₁-Written : Written format log₁ (ann_registered ∷ [])
unfolding to_dcb_event
log₁-Written = (refl, tt)

with_bob-Written : Written format with_bob (ann_registered ∷ bob_registered ∷ [])
unfolding to_dcb_event
with_bob-Written = (refl, (refl, tt))

welcome_once_example :
    (is_welcomed (codes "1") (ann_registered ∷ []) ≡ false)
    × (run_welcome format no_mail
          (log_store log_read 4)
          false
          welcome_ann
          7
          ann_is_welcomed
          ann_is_welcomed
        ≡ (false, unchanged))
welcome_once_example =
    welcome_once marshal unmarshal welcome_ann no_mail false 7 4 log₁ with_bob ann_is_welcomed
      ann_is_welcomed (ann_registered ∷ []) (ann_registered ∷ bob_registered ∷ []) format-RoundTrips
      log₁-Written with_bob-Written ann_welcomed_late

current_user_shows_example :
    (bs : List UserEvent) × Written format log₄ bs
    × (p : Option Profile) × Agrees p (email_of (codes "1") bs) (name_of (codes "1") bs)
    × (current_user_handler format (log_store log_read 5) log₄ false (ok (codes "1")) no_response
        ≡ show p)
current_user_shows_example =
    current_user_shows marshal unmarshal no_hash {n = 5} {log = log₄} (codes "1") false 5
      format-RoundTrips (log-Reaches no_hash)
