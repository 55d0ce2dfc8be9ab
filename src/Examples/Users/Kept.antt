-- ===== src/Examples/Users/Kept.antt =====
-- What each command of users appends keeps ids, names and emails unique.
use mathlib.Core.List.{append-nil, append_assoc}
use fairway.Base.{
  ℕ, ◌||◌, ◌≡◌, refl, sym, inl, inr, true, false, Bool-cases, List, [], ◌∷◌, ◌++◌, Option, none,
  some, any, filter,
}
use fairway.Base.Order.{ℕ_ord, list_ord, same_iff}
use fairway.Fdb.{Str}
use fairway.Dcb.Types.{Result}
use fairway.Command.Plans.{Format, append, append-injective, wanted, feed, decision}
use fairway.Examples.Users.{
  user_registered, user_changed_their_email, user_changed_their_name, UserEvent, user_format,
  is_held, is_owned, RegisterUser, nobody, see_for_register, register_user,
}
use fairway.Examples.Users.Changes.{
  ChangeEmail, no_emails, see_for_email, change_email, ChangeDetails, no_names, see_for_details,
  is_given, name_change, details_change, change_user_details, ChangePassword, see_for_password,
  change_password,
}
use fairway.Examples.Users.Ids.{registers, id_free}
use fairway.Examples.Users.Names.{next_name, register-knows_name, details-knows}
use fairway.Examples.Users.Emails.{next_email, register-knows_email, email-knows}
use fairway.Examples.Users.Ownership.{any_of_lookup}
use fairway.Examples.Users.Unique.{IsUnique, IsUnique-append, fresh_id, no_id}
use fairway.Examples.Users.Decided.{
  decide_registration-appends, decide_email-appends, decide_details-appends,
}

module _ (marshal : UserEvent → Result (List ℕ)) (unmarshal : Str → List ℕ → Result UserEvent)
    (hash : Str → Str) where
  abbrev format : Format UserEvent
  format = user_format marshal unmarshal

  -- An event that gives no one an id, a name or an email.
  pub plain-keeps :
      (bs : List UserEvent) (e : UserEvent)
      → IsUnique bs
      → ((i : Str) → registers i e.body ≡ false)
      → ((u : Str) (c : Option Str) → next_name u c e.body ≡ c)
      → ((u : Str) (c : Option Str) → next_email u c e.body ≡ c)
      → IsUnique (bs ++ e ∷ [])
  plain-keeps bs e h no_one name email =
      IsUnique-append bs e [] none none h (no_id bs e no_one) name email tt tt

  module _ (bs : List UserEvent) (h : IsUnique bs) where
    pub register-keeps :
        (cmd : RegisterUser) (clock : ℕ) (e : UserEvent) (es : List UserEvent)
        → decision format (register_user cmd clock) bs ≡ append e es
        → IsUnique (bs ++ e ∷ es)
    unfolding decision register_user is_held
    register-keeps cmd clock e es d =
        let seen =
          feed (see_for_register cmd) nobody
            (filter (wanted format (register_user cmd clock).query) bs) in
        let r = decide_registration-appends e es cmd clock seen d in
        let new : UserEvent = record {
          occurred_at = clock;
          body = user_registered cmd.id cmd.name cmd.email cmd.hashed_password;
        } in
        rw (r.alone, r.event)
          (IsUnique-append bs new cmd.id (some cmd.name) (some cmd.email) h
            (fresh_id cmd.id bs (id_free cmd marshal unmarshal clock bs r.id_is_free) new
              (λ i has. sym ((same_iff cmd.id i).0 has)))
            (λ u c. refl) (λ u c. refl)
            (λ v apart has. cc (
              any_of_lookup is_owned v true seen.name_ownership (λ x. refl)
                  (register-knows_name marshal unmarshal v cmd clock bs r.id_is_free has),
              r.name_is_free,
            ))
            (λ v apart has. cc (
              any_of_lookup (is_held cmd.now) v none seen.email_ownership (λ x. refl)
                  (register-knows_email marshal unmarshal v cmd clock bs r.id_is_free has),
              r.email_is_free,
            )))

    pub email-keeps :
        (cmd : ChangeEmail) (checked_at clock : ℕ) (e : UserEvent) (es : List UserEvent)
        → decision format (change_email cmd checked_at clock) bs ≡ append e es
        → IsUnique (bs ++ e ∷ es)
    unfolding decision change_email is_held
    email-keeps cmd checked_at clock e es d =
        let seen =
          feed (see_for_email cmd) no_emails
            (filter (wanted format (change_email cmd checked_at clock).query) bs) in
        let r = decide_email-appends e es cmd checked_at clock seen d in
        let new : UserEvent = record {
          occurred_at = clock;
          body = user_changed_their_email cmd.user_id r.current cmd.email;
        } in
        rw (r.alone, r.event)
          (IsUnique-append bs new cmd.user_id none (some cmd.email) h (no_id bs new (λ i. refl))
            (λ u c. refl) (λ u c. refl) tt
            (λ v apart has. cc (
              any_of_lookup (is_held checked_at) v none seen.email_ownership (λ x. refl)
                  (email-knows marshal unmarshal v cmd apart checked_at clock bs has),
              r.email_is_free,
            )))

    name_change-keeps :
        (cmd : ChangeDetails) (clock later : ℕ) (current : Str) (asked : Option Str)
        → cmd.username ≡ asked
        → any is_owned
            (feed (see_for_details cmd) no_names (
              filter
                (wanted format (change_user_details cmd clock later).query)
                bs)).other_has_username
          ≡ false
        → IsUnique (bs ++ name_change cmd clock current)
    unfolding name_change
    name_change-keeps cmd clock later current none is free = rw (is, append-nil bs) h
    name_change-keeps cmd clock later current (some text) is free =
        let seen =
          feed (see_for_details cmd) no_names
            (filter (wanted format (change_user_details cmd clock later).query) bs) in
        let new : UserEvent = record {
          occurred_at = clock;
          body = user_changed_their_name cmd.user_id current text;
        } in
        rw is (
          IsUnique-append bs new cmd.user_id (some text) none h (no_id bs new (λ i. refl))
            (λ u c. refl) (λ u c. refl)
            (λ v apart has. cc (
              any_of_lookup is_owned v true seen.other_has_username (λ x. refl)
                  (details-knows marshal unmarshal v cmd text is apart clock later bs has),
              free,
            ))
            tt)

    pub password-keeps :
        (cmd : ChangePassword) (clock : ℕ) (e : UserEvent) (es : List UserEvent)
        → decision format (change_password hash cmd clock) bs ≡ append e es
        → IsUnique (bs ++ e ∷ es)
    unfolding decision change_password
    password-keeps cmd clock e es d =
        elim (Bool-cases (
          feed (see_for_password hash cmd) false
            (filter (wanted format (change_password hash cmd clock).query) bs))) [
              | inr unknown ↦ cc (rw unknown at d)
              | inl known ↦
                  let (event, alone) = append-injective (rw known at d) in
                  rw (event, alone) (plain-keeps bs _ h (λ i. refl) (λ u c. refl) (λ u c. refl))
            ]

  details_change-keeps :
      (bs : List UserEvent) (cmd : ChangeDetails) (later : ℕ)
      → IsUnique bs
      → IsUnique (bs ++ details_change cmd later)
  unfolding details_change
  details_change-keeps bs cmd later h = elim (Bool-cases (is_given cmd.bio || is_given cmd.image)) [
    | inr nothing_given ↦ rw (nothing_given, append-nil bs) h
    | inl given ↦ rw given (plain-keeps bs _ h (λ i. refl) (λ u c. refl) (λ u c. refl))
  ]

  pub details-keeps :
      (bs : List UserEvent)
      → IsUnique bs
      → (cmd : ChangeDetails) (clock later : ℕ) (e : UserEvent) (es : List UserEvent)
      → decision format (change_user_details cmd clock later) bs ≡ append e es
      → IsUnique (bs ++ e ∷ es)
  unfolding decision change_user_details
  details-keeps bs h cmd clock later e es d =
      let seen =
        feed (see_for_details cmd) no_names
          (filter (wanted format (change_user_details cmd clock later).query) bs) in
      let r = decide_details-appends e es cmd clock later seen d in
      rw (r.events, ← append_assoc bs (name_change cmd clock r.current) (details_change cmd later))
        (details_change-keeps _ cmd later
          (name_change-keeps bs h cmd clock later r.current cmd.username refl r.name_is_free))
