-- ===== src/Examples/Users/Emails.antt =====
-- Who has an email, and what the commands know of it.
use fairway.Base.{
  ℕ, ◌≡◌, refl, inl, inr, Bool, true, false, Bool-cases, ◌&&◌, not, List, Option, none, some, arith,
  filter, if◌then◌else◌,
}
use fairway.Base.Order.{ℕ_ord, list_ord, same, same_iff}
use fairway.Fdb.{Str}
use fairway.Dcb.Types.{Result}
use fairway.Command.Plans.{Format, wanted, feed}
use fairway.Command.Plans.Tracking.{trace, feed-trace}
use fairway.Examples.Users.{
  UserData, user_registered, user_changed_their_email, user_changed_their_name,
  user_changed_details, user_changed_their_password, user_welcome_email_sent, UserEvent,
  user_format, RegisterUser, RegisterSeen, nobody, see_for_register, register_user,
}
use fairway.Examples.Users.Changes.{ChangeEmail, EmailSeen, no_emails, see_for_email, change_email}
use fairway.Examples.Users.Ids.{register_stops}
use fairway.Examples.Users.Ownership.{lookup, still_marked, released_apart, unmarked}

-- The email of a user after an event.
abbrev pub next_email : Str → Option Str → UserData → Option Str
next_email u c (user_registered id name email hashed) = if same id u then some email else c
next_email u c (user_changed_their_email id previous new) = if same id u then some new else c
next_email u c (user_changed_their_name id previous new) = c
next_email u c (user_changed_details id bio image) = c
next_email u c (user_changed_their_password id hashed) = c
next_email u c (user_welcome_email_sent id) = c

abbrev pub email_of : Str → List UserEvent → Option Str
email_of u es = trace (λ c e. next_email u c e.body) none es

pub email_goes_on :
    (cmd : ChangeEmail) (h : EmailSeen) (t : ℕ) (b : UserData)
    → (see_for_email cmd h (record { occurred_at = t; body = b })).1 ≡ true
unfolding see_for_email
email_goes_on cmd h t (user_registered id name email hashed) = refl
email_goes_on cmd h t (user_changed_their_email id previous new) = refl
email_goes_on cmd h t (user_changed_their_name id previous new) = refl
email_goes_on cmd h t (user_changed_details id bio image) = refl
email_goes_on cmd h t (user_changed_their_password id hashed) = refl
email_goes_on cmd h t (user_welcome_email_sent id) = refl

and_false : (b : Bool) → (b && false) ≡ false
and_false b = ground arith

and_true : (b : Bool) → (b && true) ≡ b
and_true b = ground arith

module _ (marshal : UserEvent → Result (List ℕ)) (unmarshal : Str → List ℕ → Result UserEvent)
    (u : Str) where
  abbrev format : Format UserEvent
  format = user_format marshal unmarshal

  module _ (cmd : RegisterUser) (clock : ℕ) where
    abbrev Knows : RegisterSeen → Option Str → Type 0
    Knows h c = c ≡ some cmd.email → lookup u h.email_ownership ≡ some none

    register_sees :
        (h : RegisterSeen) (c : Option Str) (t : ℕ) (b : UserData)
        → (see_for_register cmd h (record { occurred_at = t; body = b })).1 ≡ true
        → Knows h c
        → Knows (see_for_register cmd h (record { occurred_at = t; body = b })).0 (next_email u c b)
    unfolding see_for_register
    register_sees h c t (user_registered id name email hashed) more k =
        elim (Bool-cases (same id cmd.id)) [
          | inl taken ↦ cc (rw taken at more)
          | inr free ↦ rw free (
              still_marked u id cmd.email email h.email_ownership h.email_ownership none c k
                (λ i. refl))
        ]
    register_sees h c t (user_changed_their_email id previous new) more k =
        still_marked u id cmd.email new h.email_ownership _ none c k (
          released_apart u id cmd.email new h.email_ownership h.email_ownership none c (some t)
            (same previous cmd.email))
    register_sees h c t (user_changed_their_name id previous new) more k = k
    register_sees h c t (user_changed_details id bio image) more k = k
    register_sees h c t (user_changed_their_password id hashed) more k = k
    register_sees h c t (user_welcome_email_sent id) more k = k

    register_misses :
        (h : RegisterSeen) (c : Option Str) (t : ℕ) (b : UserData)
        → wanted format (register_user cmd clock).query (record { occurred_at = t; body = b })
          ≡ false
        → Knows h c
        → Knows h (next_email u c b)
    unfolding register_user
    register_misses h c t (user_registered id name email hashed) passed k =
        let other : same cmd.email email ≡ false = ground (arith, passed) in
        unmarked u id cmd.email email c other k
    register_misses h c t (user_changed_their_email id previous new) passed k =
        let other : same cmd.email new ≡ false = ground (arith, passed) in
        unmarked u id cmd.email new c other k
    register_misses h c t (user_changed_their_name id previous new) passed k = k
    register_misses h c t (user_changed_details id bio image) passed k = k
    register_misses h c t (user_changed_their_password id hashed) passed k = k
    register_misses h c t (user_welcome_email_sent id) passed k = k

    -- Who has the email of the command is marked as its owner, if the id is free.
    pub register-knows_email :
        (es : List UserEvent)
        → (feed
            (see_for_register cmd)
            nobody
            (filter (wanted format (register_user cmd clock).query) es)).id_taken
          ≡ false
        → email_of u es ≡ some cmd.email
        → lookup u
            (feed
              (see_for_register cmd)
              nobody
              (filter (wanted format (register_user cmd clock).query) es)).email_ownership
          ≡ some none
    register-knows_email es free =
        feed-trace (see_for_register cmd) (wanted format (register_user cmd clock).query)
          (λ h. not h.id_taken) (λ c e. next_email u c e.body) Knows (register_stops cmd)
          (λ h c e. register_sees h c e.occurred_at e.body)
          (λ h c e. register_misses h c e.occurred_at e.body) nobody none es (λ e. cc e)
          (rw free refl)

  module _ (cmd : ChangeEmail) (other : same cmd.user_id u ≡ false) (checked_at clock : ℕ) where
    abbrev KnowsOther : EmailSeen → Option Str → Type 0
    KnowsOther h c = c ≡ some cmd.email → lookup u h.email_ownership ≡ some none

    -- An event of the user of the command is not one of `u`.
    of_another : (id : Str) → same id cmd.user_id ≡ true → same id u ≡ false
    of_another id own = rw ((same_iff id cmd.user_id).0 own) other

    email_sees :
        (h : EmailSeen) (c : Option Str) (t : ℕ) (b : UserData)
        → KnowsOther h c
        → KnowsOther
            (see_for_email cmd h (record { occurred_at = t; body = b })).0
            (next_email u c b)
    unfolding see_for_email
    email_sees h c t (user_registered id name email hashed) k =
        elim (Bool-cases (same id cmd.user_id)) [
          | inl own ↦ rw (own, of_another id own, and_false (same email cmd.email)) k
          | inr not_own ↦
              rw (not_own, and_true (same email cmd.email))
                (still_marked u id cmd.email email h.email_ownership h.email_ownership none c k
                  (λ i. refl))
        ]
    email_sees h c t (user_changed_their_email id previous new) k =
        elim (Bool-cases (same id cmd.user_id)) [
          | inl own ↦ rw (own, of_another id own) k
          | inr not_own ↦ rw not_own (
              still_marked u id cmd.email new h.email_ownership _ none c k (
                released_apart u id cmd.email new h.email_ownership h.email_ownership none c
                  (some t) (same previous cmd.email)))
        ]
    email_sees h c t (user_changed_their_name id previous new) k = k
    email_sees h c t (user_changed_details id bio image) k = k
    email_sees h c t (user_changed_their_password id hashed) k = k
    email_sees h c t (user_welcome_email_sent id) k = k

    email_misses :
        (h : EmailSeen) (c : Option Str) (t : ℕ) (b : UserData)
        → wanted format
            (change_email cmd checked_at clock).query
            (record { occurred_at = t; body = b })
          ≡ false
        → KnowsOther h c
        → KnowsOther h (next_email u c b)
    unfolding change_email
    email_misses h c t (user_registered id name email hashed) passed k =
        let apart : same cmd.email email ≡ false = ground (arith, passed) in
        unmarked u id cmd.email email c apart k
    email_misses h c t (user_changed_their_email id previous new) passed k =
        let apart : same cmd.email new ≡ false = ground (arith, passed) in
        unmarked u id cmd.email new c apart k
    email_misses h c t (user_changed_their_name id previous new) passed k = k
    email_misses h c t (user_changed_details id bio image) passed k = k
    email_misses h c t (user_changed_their_password id hashed) passed k = k
    email_misses h c t (user_welcome_email_sent id) passed k = k

    -- Another user who has the email that is asked for is marked as its owner.
    pub email-knows :
        (es : List UserEvent)
        → email_of u es ≡ some cmd.email
        → lookup u
            (feed
              (see_for_email cmd)
              no_emails
              (filter (wanted format (change_email cmd checked_at clock).query) es)).email_ownership
          ≡ some none
    email-knows es =
        feed-trace (see_for_email cmd) (wanted format (change_email cmd checked_at clock).query)
          (λ h. true) (λ c e. next_email u c e.body) KnowsOther
          (λ h e stop. cc (stop, email_goes_on cmd h e.occurred_at e.body))
          (λ h c e more. email_sees h c e.occurred_at e.body)
          (λ h c e. email_misses h c e.occurred_at e.body) no_emails none es (λ e. cc e) refl
