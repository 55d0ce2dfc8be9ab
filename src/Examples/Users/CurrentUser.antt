-- ===== src/Examples/Users/CurrentUser.antt =====
-- The answer of GET /user on the logs that the commands of users reach.
use fairway.Base.{
  ℕ, ◌≡◌, refl, ap, ◌∙◌, inl, inr, Bool, true, false, Bool-cases, List, [], ◌∷◌, Option, none, some,
  filter,
}
use fairway.Base.Order.{ℕ_ord, list_ord, same, same_self, same_iff}
use fairway.Fdb.{Str}
use fairway.Dcb.Types.{Result, StoredEvent, ok}
use fairway.Command.{view_read_events}
use fairway.Command.Conditions.{log_store}
use fairway.Command.Reads.{log_read}
use fairway.Command.Plans.{Format, RoundTrips, wanted, feed}
use fairway.Command.Plans.Tracking.{trace}
use fairway.Command.Plans.Written.{Written, filter-Written, dispatch-feed}
use fairway.Command.Plans.Sequential.{Reaches, Reaches-Sequential}
use fairway.Examples.Http.{Response, no_response, value, write_header, encode}
use fairway.Examples.Users.{
  UserData, user_registered, user_changed_their_email, user_changed_their_name,
  user_changed_details, user_changed_their_password, user_welcome_email_sent, UserEvent,
  user_format,
}
use fairway.Examples.Users.Views.{
  Profile, profile_query, see_user, answer_profile, current_user_handler,
}
use fairway.Examples.Users.Names.{name_of}
use fairway.Examples.Users.Emails.{email_of}
use fairway.Examples.Users.Profiles.{next_profile, profile_of, Agrees}
use fairway.Examples.Users.History.{plan, is_welcome, users-IsWellMade}
use fairway.Examples.Users.Shown.{Sequential-AllAgree}

module _ (marshal : UserEvent → Result (List ℕ)) (unmarshal : Str → List ℕ → Result UserEvent)
    (u : Str) where
  abbrev format : Format UserEvent
  format = user_format marshal unmarshal

  abbrev seen_from : Option Profile → List UserEvent → Option Profile
  seen_from p es = feed see_user p (filter (wanted format (profile_query u)) es)

  own_tag : (id : Str) → same id u ≡ true → same u id ≡ true
  own_tag id own = rw ((same_iff id u).0 own) (same_self u)

  other_tag : (id : Str) → same id u ≡ false → same u id ≡ false
  other_tag id other = elim (Bool-cases (same u id)) [
    | inr f ↦ f
    | inl t ↦ cc (rw ((same_iff u id).0 t) at other, same_self id)
  ]

  see_step :
      (p : Option Profile) (t : ℕ) (b : UserData) (es : List UserEvent)
      → seen_from p (record { occurred_at = t; body = b } ∷ es) ≡ seen_from (next_profile u p b) es
  unfolding feed see_user
  see_step p t (user_registered id name email hashed) es = elim (Bool-cases (same id u)) [
    | inl own ↦ rw (own, own_tag id own) refl
    | inr other ↦ rw (other, other_tag id other) refl
  ]
  see_step p t (user_changed_their_email id previous new) es = elim (Bool-cases (same id u)) [
    | inl own ↦ rw (own, own_tag id own) refl
    | inr other ↦ rw (other, other_tag id other) refl
  ]
  see_step p t (user_changed_their_name id previous new) es = elim (Bool-cases (same id u)) [
    | inl own ↦ rw (own, own_tag id own) refl
    | inr other ↦ rw (other, other_tag id other) refl
  ]
  see_step p t (user_changed_details id bio image) es = elim (Bool-cases (same id u)) [
    | inl own ↦ rw (own, own_tag id own) refl
    | inr other ↦ rw (other, other_tag id other) refl
  ]
  see_step p t (user_changed_their_password id hashed) es = refl
  see_step p t (user_welcome_email_sent id) es = refl

  see_all :
      (p : Option Profile) (es : List UserEvent)
      → seen_from p es ≡ trace (λ q e. next_profile u q e.body) p es
  unfolding feed
  see_all p [] = refl
  see_all p (e ∷ es) = see_step p e.occurred_at e.body es ∙ see_all (next_profile u p e.body) es

-- The answer for a profile, or for none.
abbrev pub show : Option Profile → Response Profile
show none = record { status = some 404; body = [] }
show (some p) = record { status = some 200; body = value p ∷ [] }

answer_profile-show : (p : Option Profile) → answer_profile p no_response ≡ show p
unfolding answer_profile write_header encode
answer_profile-show none = refl
answer_profile-show (some p) = refl

answers :
    (marshal : UserEvent → Result (List ℕ)) (unmarshal : Str → List ℕ → Result UserEvent) (u : Str)
    (ctx_done : Bool) (tx : ℕ) (log : List StoredEvent) (bs : List UserEvent)
    → RoundTrips (user_format marshal unmarshal)
    → Written (user_format marshal unmarshal) log bs
    → current_user_handler
        (user_format marshal unmarshal)
        (log_store log_read tx)
        log
        ctx_done
        (ok u)
        no_response
      ≡ show (profile_of u bs)
unfolding current_user_handler view_read_events
answers marshal unmarshal u ctx_done tx log bs round_trips written =
    let f = user_format marshal unmarshal in
    let (highest, h) =
      dispatch-feed f round_trips see_user ctx_done none none _ _
        (filter-Written f (profile_query u) log bs written) in
    let read_ok = ap (λ (r : Option Profile × Result (Option ℕ)). r.1) h in
    let read = ap (λ (r : Option Profile × Result (Option ℕ)). r.0) h in
    let found = read ∙ see_all marshal unmarshal u none bs in
    rw read_ok (
      ap (λ (p : Option Profile). answer_profile p no_response) found
      ∙ answer_profile-show (profile_of u bs))

-- If JSON round-trips, then on every log that clients reach with the four commands of users and with
-- welcome emails, GET /user answers 404 if no event of the log has given the user an email, nor one a
-- username, and else 200 with one profile, which shows the email and the username of the last events
-- that gave the user one.
pub current_user_shows :
    (marshal : UserEvent → Result (List ℕ)) (unmarshal : Str → List ℕ → Result UserEvent)
    (hash : Str → Str) {n : ℕ} {log : List StoredEvent} (u : Str) (ctx_done : Bool) (tx : ℕ)
    → RoundTrips (user_format marshal unmarshal)
    → Reaches (user_format marshal unmarshal) (plan hash) is_welcome n log
    → (bs : List UserEvent) × Written (user_format marshal unmarshal) log bs
      × (p : Option Profile) × Agrees p (email_of u bs) (name_of u bs)
      × (current_user_handler
            (user_format marshal unmarshal)
            (log_store log_read tx)
            log
            ctx_done
            (ok u)
            no_response
          ≡ show p)
current_user_shows marshal unmarshal hash {n} {log} u ctx_done tx round_trips r =
    let (bs, written, one_by_one) =
      Reaches-Sequential (user_format marshal unmarshal) (plan hash) is_welcome
        (users-IsWellMade marshal unmarshal hash round_trips) r in
    (
      bs,
      written,
      profile_of u bs,
      Sequential-AllAgree marshal unmarshal hash bs one_by_one u,
      answers marshal unmarshal u ctx_done tx log bs round_trips written,
    )
