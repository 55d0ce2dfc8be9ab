-- ===== src/Examples/Users/Login.antt =====
-- What POST /users/login answers.
use fairway.Base.{
  ℕ, ◌≡◌, refl, ap, ◌∙◌, inl, inr, Bool, Bool-cases, List, [], ◌∷◌, Option, none, some, filter,
  if◌then◌else◌,
}
use fairway.Base.Order.{ℕ_ord, list_ord, same}
use fairway.Fdb.{Str}
use fairway.Dcb.Types.{StoredEvent, Result, ok}
use fairway.Command.{view_read_events}
use fairway.Command.Conditions.{log_store}
use fairway.Command.Reads.{log_read}
use fairway.Command.Plans.{Format, RoundTrips, wanted, feed}
use fairway.Command.Plans.Written.{Written, filter-Written, dispatch-feed}
use fairway.Examples.Http.{Response}
use fairway.Examples.Users.{
  UserData, user_registered, user_changed_their_email, user_changed_their_name,
  user_changed_details, user_changed_their_password, user_welcome_email_sent, UserEvent,
  user_format,
}
use fairway.Examples.Users.Views.{
  LoginBody, FoundUser, login_query, find_user, grant, login_handler,
}

-- The first registration with the email, or what comes after.
abbrev or_registered : Str → UserData → Option FoundUser → Option FoundUser
or_registered email (user_registered id name e hashed) later =
    if same email e then some (record { id = id; hashed_password = hashed }) else later
or_registered email (user_changed_their_email id previous new) later = later
or_registered email (user_changed_their_name id previous new) later = later
or_registered email (user_changed_details id bio image) later = later
or_registered email (user_changed_their_password id hashed) later = later
or_registered email (user_welcome_email_sent id) later = later

abbrev pub registered_with : Str → List UserEvent → Option FoundUser
registered_with email [] = none
registered_with email (e ∷ es) = or_registered email e.body (registered_with email es)

module _ (marshal : UserEvent → Result (List ℕ)) (unmarshal : Str → List ℕ → Result UserEvent)
    (email : Str) where
  abbrev format : Format UserEvent
  format = user_format marshal unmarshal

  abbrev found_in : List UserEvent → Option FoundUser
  found_in es = feed find_user none (filter (wanted format (login_query email)) es)

  find_step :
      (t : ℕ) (b : UserData) (es : List UserEvent)
      → found_in es ≡ registered_with email es
      → found_in (record { occurred_at = t; body = b } ∷ es)
        ≡ or_registered email b (registered_with email es)
  unfolding feed find_user
  find_step t (user_registered id name e hashed) es ih = elim (Bool-cases (same email e)) [
    | inl s ↦ rw s refl
    | inr s ↦ rw s ih
  ]
  find_step t (user_changed_their_email id previous new) es ih = ih
  find_step t (user_changed_their_name id previous new) es ih = ih
  find_step t (user_changed_details id bio image) es ih = ih
  find_step t (user_changed_their_password id hashed) es ih = ih
  find_step t (user_welcome_email_sent id) es ih = ih

  find_all : (es : List UserEvent) → found_in es ≡ registered_with email es
  unfolding feed
  find_all [] = refl
  find_all (e ∷ es) = find_step e.occurred_at e.body es (find_all es)

-- If JSON round-trips and the log holds events of the application, a login answers by the first event
-- of the log that registers a user with the email of the request, and by nothing else in the log: changes
-- of emails and of passwords do not count.
pub login_exact :
    (marshal : UserEvent → Result (List ℕ)) (unmarshal : Str → List ℕ → Result UserEvent)
    (matches : Str → Str → Bool) (token : Str → Result Str) (ctx_done : Bool) (tx : ℕ)
    (log : List StoredEvent) (bs : List UserEvent) (req : LoginBody) (w : Response Str)
    → RoundTrips (user_format marshal unmarshal)
    → Written (user_format marshal unmarshal) log bs
    → login_handler matches token
        (user_format marshal unmarshal)
        (log_store log_read tx)
        log
        ctx_done
        (ok req)
        w
      ≡ grant matches token req.password (registered_with req.email bs) w
unfolding login_handler view_read_events
login_exact marshal unmarshal matches token ctx_done tx log bs req w round_trips written =
    let f = user_format marshal unmarshal in
    let (highest, h) =
      dispatch-feed f round_trips find_user ctx_done none none _ _
        (filter-Written f (login_query req.email) log bs written) in
    let read_ok = ap (λ (r : Option FoundUser × Result (Option ℕ)). r.1) h in
    let read = ap (λ (r : Option FoundUser × Result (Option ℕ)). r.0) h in
    rw read_ok (
      ap (λ (found : Option FoundUser). grant matches token req.password found w)
        (read ∙ find_all marshal unmarshal req.email bs))
