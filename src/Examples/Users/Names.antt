-- ===== src/Examples/Users/Names.antt =====
-- Who has a username, and what the commands know of it.
use fairway.Base.{
  ℕ, ◌≡◌, refl, inl, inr, true, false, Bool-cases, not, List, Option, none, some, arith, filter,
  if◌then◌else◌,
}
use fairway.Base.Order.{ℕ_ord, list_ord, same, same_iff}
use fairway.Fdb.{Str}
use fairway.Dcb.Types.{Result}
use fairway.Command.Plans.{Format, wanted, feed}
use fairway.Command.Plans.Tracking.{trace, feed-trace}
use fairway.Examples.Users.{
  UserData, user_registered, user_changed_their_email, user_changed_their_name,
  user_changed_details, user_changed_their_password, user_welcome_email_sent, UserEvent,
  user_format, RegisterUser, RegisterSeen, nobody, see_for_register, register_user,
}
use fairway.Examples.Users.Changes.{
  ChangeDetails, NameSeen, no_names, see_for_details, change_user_details,
}
use fairway.Examples.Users.Ids.{register_stops}
use fairway.Examples.Users.Ownership.{lookup, still_marked, released_apart, unmarked}

-- The username of a user after an event.
abbrev pub next_name : Str → Option Str → UserData → Option Str
next_name u c (user_registered id name email hashed) = if same id u then some name else c
next_name u c (user_changed_their_name id previous new) = if same id u then some new else c
next_name u c (user_changed_their_email id previous new) = c
next_name u c (user_changed_details id bio image) = c
next_name u c (user_changed_their_password id hashed) = c
next_name u c (user_welcome_email_sent id) = c

abbrev pub name_of : Str → List UserEvent → Option Str
name_of u es = trace (λ c e. next_name u c e.body) none es

pub details_goes_on :
    (cmd : ChangeDetails) (h : NameSeen) (t : ℕ) (b : UserData)
    → (see_for_details cmd h (record { occurred_at = t; body = b })).1 ≡ true
unfolding see_for_details
details_goes_on cmd h t (user_registered id name email hashed) = refl
details_goes_on cmd h t (user_changed_their_email id previous new) = refl
details_goes_on cmd h t (user_changed_their_name id previous new) = refl
details_goes_on cmd h t (user_changed_details id bio image) = refl
details_goes_on cmd h t (user_changed_their_password id hashed) = refl
details_goes_on cmd h t (user_welcome_email_sent id) = refl

module _ (marshal : UserEvent → Result (List ℕ)) (unmarshal : Str → List ℕ → Result UserEvent)
    (u : Str) where
  abbrev format : Format UserEvent
  format = user_format marshal unmarshal

  module _ (cmd : RegisterUser) (clock : ℕ) where
    abbrev Knows : RegisterSeen → Option Str → Type 0
    Knows h c = c ≡ some cmd.name → lookup u h.name_ownership ≡ some true

    register_sees :
        (h : RegisterSeen) (c : Option Str) (t : ℕ) (b : UserData)
        → (see_for_register cmd h (record { occurred_at = t; body = b })).1 ≡ true
        → Knows h c
        → Knows (see_for_register cmd h (record { occurred_at = t; body = b })).0 (next_name u c b)
    unfolding see_for_register
    register_sees h c t (user_registered id name email hashed) more k =
        elim (Bool-cases (same id cmd.id)) [
          | inl taken ↦ cc (rw taken at more)
          | inr free ↦ rw free (
              still_marked u id cmd.name name h.name_ownership h.name_ownership true c k
                (λ i. refl))
        ]
    register_sees h c t (user_changed_their_name id previous new) more k =
        still_marked u id cmd.name new h.name_ownership _ true c k (
          released_apart u id cmd.name new h.name_ownership h.name_ownership true c false
            (same previous cmd.name))
    register_sees h c t (user_changed_their_email id previous new) more k = k
    register_sees h c t (user_changed_details id bio image) more k = k
    register_sees h c t (user_changed_their_password id hashed) more k = k
    register_sees h c t (user_welcome_email_sent id) more k = k

    register_misses :
        (h : RegisterSeen) (c : Option Str) (t : ℕ) (b : UserData)
        → wanted format (register_user cmd clock).query (record { occurred_at = t; body = b })
          ≡ false
        → Knows h c
        → Knows h (next_name u c b)
    unfolding register_user
    register_misses h c t (user_registered id name email hashed) passed k =
        let other : same cmd.name name ≡ false = ground (arith, passed) in
        unmarked u id cmd.name name c other k
    register_misses h c t (user_changed_their_name id previous new) passed k =
        let other : same cmd.name new ≡ false = ground (arith, passed) in
        unmarked u id cmd.name new c other k
    register_misses h c t (user_changed_their_email id previous new) passed k = k
    register_misses h c t (user_changed_details id bio image) passed k = k
    register_misses h c t (user_changed_their_password id hashed) passed k = k
    register_misses h c t (user_welcome_email_sent id) passed k = k

    -- Who has the name of the command is marked as its owner, if the id is free.
    pub register-knows_name :
        (es : List UserEvent)
        → (feed
            (see_for_register cmd)
            nobody
            (filter (wanted format (register_user cmd clock).query) es)).id_taken
          ≡ false
        → name_of u es ≡ some cmd.name
        → lookup u
            (feed
              (see_for_register cmd)
              nobody
              (filter (wanted format (register_user cmd clock).query) es)).name_ownership
          ≡ some true
    register-knows_name es free =
        feed-trace (see_for_register cmd) (wanted format (register_user cmd clock).query)
          (λ h. not h.id_taken) (λ c e. next_name u c e.body) Knows (register_stops cmd)
          (λ h c e. register_sees h c e.occurred_at e.body)
          (λ h c e. register_misses h c e.occurred_at e.body) nobody none es (λ e. cc e)
          (rw free refl)

  module _ (cmd : ChangeDetails) (text : Str) (asked : cmd.username ≡ some text)
      (other : same cmd.user_id u ≡ false) (clock later : ℕ) where
    abbrev KnowsOther : NameSeen → Option Str → Type 0
    KnowsOther h c = c ≡ some text → lookup u h.other_has_username ≡ some true

    -- An event of the user of the command is not one of `u`.
    of_another : (id : Str) → same id cmd.user_id ≡ true → same id u ≡ false
    of_another id own = rw ((same_iff id cmd.user_id).0 own) other

    details_sees :
        (h : NameSeen) (c : Option Str) (t : ℕ) (b : UserData)
        → KnowsOther h c
        → KnowsOther
            (see_for_details cmd h (record { occurred_at = t; body = b })).0
            (next_name u c b)
    unfolding see_for_details
    details_sees h c t (user_registered id name email hashed) k =
        elim (Bool-cases (same id cmd.user_id)) [
          | inl own ↦ rw (own, of_another id own) k
          | inr not_own ↦
              rw (not_own, asked)
                (still_marked u id text name h.other_has_username h.other_has_username true c k
                  (λ i. refl))
        ]
    details_sees h c t (user_changed_their_name id previous new) k =
        elim (Bool-cases (same id cmd.user_id)) [
          | inl own ↦ rw (own, of_another id own) k
          | inr not_own ↦
              rw (not_own, asked)
                (still_marked u id text new h.other_has_username _ true c k (
                  released_apart u id text new h.other_has_username h.other_has_username true c
                    false (same previous text)))
        ]
    details_sees h c t (user_changed_their_email id previous new) k = k
    details_sees h c t (user_changed_details id bio image) k = k
    details_sees h c t (user_changed_their_password id hashed) k = k
    details_sees h c t (user_welcome_email_sent id) k = k

    details_misses :
        (h : NameSeen) (c : Option Str) (t : ℕ) (b : UserData)
        → wanted format
            (change_user_details cmd clock later).query
            (record { occurred_at = t; body = b })
          ≡ false
        → KnowsOther h c
        → KnowsOther h (next_name u c b)
    unfolding change_user_details
    details_misses h c t (user_registered id name email hashed) passed k =
        let missed = rw asked at passed in
        let apart : same text name ≡ false = ground (arith, missed) in
        unmarked u id text name c apart k
    details_misses h c t (user_changed_their_name id previous new) passed k =
        let missed = rw asked at passed in
        let apart : same text new ≡ false = ground (arith, missed) in
        unmarked u id text new c apart k
    details_misses h c t (user_changed_their_email id previous new) passed k = k
    details_misses h c t (user_changed_details id bio image) passed k = k
    details_misses h c t (user_changed_their_password id hashed) passed k = k
    details_misses h c t (user_welcome_email_sent id) passed k = k

    -- Another user who has the name that is asked for is marked as its owner.
    pub details-knows :
        (es : List UserEvent)
        → name_of u es ≡ some text
        → lookup u (
            (feed (see_for_details cmd) no_names (
              filter
                (wanted format (change_user_details cmd clock later).query)
                es)).other_has_username)
          ≡ some true
    unfolding change_user_details
    details-knows es =
        feed-trace (see_for_details cmd) (wanted format (change_user_details cmd clock later).query)
          (λ h. true) (λ c e. next_name u c e.body) KnowsOther
          (λ h e stop. cc (stop, details_goes_on cmd h e.occurred_at e.body))
          (λ h c e more. details_sees h c e.occurred_at e.body)
          (λ h c e. details_misses h c e.occurred_at e.body) no_names none es (λ e. cc e) refl
