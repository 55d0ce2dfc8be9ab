-- ===== src/Examples/Users/Current.antt =====
-- What the changes of examples/realworldapp find as the current email and username of their user.
use fairway.Base.{ℕ, ◌≡◌, refl, inl, inr, true, false, Bool-cases, List, Option, none, filter}
use fairway.Base.Order.{ℕ_ord, list_ord, same, same_self, same_iff}
use fairway.Fdb.{Str}
use fairway.Dcb.Types.{Result}
use fairway.Command.Plans.{Format, wanted, feed}
use fairway.Command.Plans.Tracking.{feed-trace}
use fairway.Examples.Users.{
  UserData, user_registered, user_changed_their_email, user_changed_their_name,
  user_changed_details, user_changed_their_password, user_welcome_email_sent, UserEvent,
  user_format,
}
use fairway.Examples.Users.Changes.{
  ChangeEmail, EmailSeen, no_emails, see_for_email, change_email, ChangeDetails, NameSeen, no_names,
  see_for_details, change_user_details,
}
use fairway.Examples.Users.Names.{next_name, name_of, details_goes_on}
use fairway.Examples.Users.Emails.{next_email, email_of, email_goes_on}

module _ (marshal : UserEvent → Result (List ℕ)) (unmarshal : Str → List ℕ → Result UserEvent) where
  abbrev format : Format UserEvent
  format = user_format marshal unmarshal

  module _ (cmd : ChangeEmail) (checked_at clock : ℕ) where
    current_email_sees :
        (h : EmailSeen) (c : Option Str) (t : ℕ) (b : UserData)
        → h.current_email ≡ c
        → (see_for_email cmd h (record { occurred_at = t; body = b })).0.current_email
          ≡ next_email cmd.user_id c b
    unfolding see_for_email
    current_email_sees h c t (user_registered id name email hashed) k = rw k refl
    current_email_sees h c t (user_changed_their_email id previous new) k = rw k refl
    current_email_sees h c t (user_changed_their_name id previous new) k = k
    current_email_sees h c t (user_changed_details id bio image) k = k
    current_email_sees h c t (user_changed_their_password id hashed) k = k
    current_email_sees h c t (user_welcome_email_sent id) k = k

    current_email_misses :
        (h : EmailSeen) (c : Option Str) (t : ℕ) (b : UserData)
        → wanted format
            (change_email cmd checked_at clock).query
            (record { occurred_at = t; body = b })
          ≡ false
        → h.current_email ≡ c
        → h.current_email ≡ next_email cmd.user_id c b
    unfolding change_email
    current_email_misses h c t (user_registered id name email hashed) passed k =
        elim (Bool-cases (same id cmd.user_id)) [
          | inr other ↦ rw other k
          | inl own ↦
              let is : same cmd.user_id id ≡ true =
                rw ((same_iff id cmd.user_id).0 own) (same_self cmd.user_id) in
              cc (rw is at passed)
        ]
    current_email_misses h c t (user_changed_their_email id previous new) passed k =
        elim (Bool-cases (same id cmd.user_id)) [
          | inr other ↦ rw other k
          | inl own ↦
              let is : same cmd.user_id id ≡ true =
                rw ((same_iff id cmd.user_id).0 own) (same_self cmd.user_id) in
              cc (rw is at passed)
        ]
    current_email_misses h c t (user_changed_their_name id previous new) passed k = k
    current_email_misses h c t (user_changed_details id bio image) passed k = k
    current_email_misses h c t (user_changed_their_password id hashed) passed k = k
    current_email_misses h c t (user_welcome_email_sent id) passed k = k

    -- The command has the current email of its user.
    pub current_email-email_of :
        (es : List UserEvent)
        → (feed
            (see_for_email cmd)
            no_emails
            (filter (wanted format (change_email cmd checked_at clock).query) es)).current_email
          ≡ email_of cmd.user_id es
    current_email-email_of es =
        feed-trace (see_for_email cmd) (wanted format (change_email cmd checked_at clock).query)
          (λ h. true) (λ c e. next_email cmd.user_id c e.body) (λ h c. h.current_email ≡ c)
          (λ h e stop. cc (stop, email_goes_on cmd h e.occurred_at e.body))
          (λ h c e more. current_email_sees h c e.occurred_at e.body)
          (λ h c e. current_email_misses h c e.occurred_at e.body) no_emails none es refl refl

  module _ (cmd : ChangeDetails) (clock later : ℕ) where
    current_name_sees :
        (h : NameSeen) (c : Option Str) (t : ℕ) (b : UserData)
        → h.current_username ≡ c
        → (see_for_details cmd h (record { occurred_at = t; body = b })).0.current_username
          ≡ next_name cmd.user_id c b
    unfolding see_for_details
    current_name_sees h c t (user_registered id name email hashed) k = rw k refl
    current_name_sees h c t (user_changed_their_name id previous new) k = rw k refl
    current_name_sees h c t (user_changed_their_email id previous new) k = k
    current_name_sees h c t (user_changed_details id bio image) k = k
    current_name_sees h c t (user_changed_their_password id hashed) k = k
    current_name_sees h c t (user_welcome_email_sent id) k = k

    current_name_misses :
        (h : NameSeen) (c : Option Str) (t : ℕ) (b : UserData)
        → wanted format
            (change_user_details cmd clock later).query
            (record { occurred_at = t; body = b })
          ≡ false
        → h.current_username ≡ c
        → h.current_username ≡ next_name cmd.user_id c b
    unfolding change_user_details
    current_name_misses h c t (user_registered id name email hashed) passed k =
        elim (Bool-cases (same id cmd.user_id)) [
          | inr other ↦ rw other k
          | inl own ↦
              let is : same cmd.user_id id ≡ true =
                rw ((same_iff id cmd.user_id).0 own) (same_self cmd.user_id) in
              cc (rw is at passed)
        ]
    current_name_misses h c t (user_changed_their_name id previous new) passed k =
        elim (Bool-cases (same id cmd.user_id)) [
          | inr other ↦ rw other k
          | inl own ↦
              let is : same cmd.user_id id ≡ true =
                rw ((same_iff id cmd.user_id).0 own) (same_self cmd.user_id) in
              cc (rw is at passed)
        ]
    current_name_misses h c t (user_changed_their_email id previous new) passed k = k
    current_name_misses h c t (user_changed_details id bio image) passed k = k
    current_name_misses h c t (user_changed_their_password id hashed) passed k = k
    current_name_misses h c t (user_welcome_email_sent id) passed k = k

    -- The command has the current username of its user.
    pub current_username-name_of :
        (es : List UserEvent)
        → (feed (see_for_details cmd) no_names (
            filter (wanted format (change_user_details cmd clock later).query) es)).current_username
          ≡ name_of cmd.user_id es
    current_username-name_of es =
        feed-trace (see_for_details cmd) (wanted format (change_user_details cmd clock later).query)
          (λ h. true) (λ c e. next_name cmd.user_id c e.body) (λ h c. h.current_username ≡ c)
          (λ h e stop. cc (stop, details_goes_on cmd h e.occurred_at e.body))
          (λ h c e more. current_name_sees h c e.occurred_at e.body)
          (λ h c e. current_name_misses h c e.occurred_at e.body) no_names none es refl refl
