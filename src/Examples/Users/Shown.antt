-- ===== src/Examples/Users/Shown.antt =====
-- GET /user on the logs that the commands of users reach.
use mathlib.Core.List.{append-nil, append_assoc}
use fairway.Base.{
  ℕ, ◌≡◌, refl, sym, subst, ◌∙◌, inl, inr, true, false, Bool-cases, ◌||◌, List, [], ◌∷◌, ◌++◌,
  Option, none, some, filter,
}
use fairway.Base.Order.{ℕ_ord, list_ord, same_iff}
use fairway.Fdb.{Str}
use fairway.Dcb.Types.{Result}
use fairway.Command.Plans.{Format, append, append-injective, wanted, feed, decision}
use fairway.Command.Plans.Sequential.{Sequential, empty, command, effect}
use fairway.Examples.Users.{
  UserData, user_registered, user_changed_their_email, user_changed_their_name,
  user_changed_details, user_changed_their_password, user_welcome_email_sent, UserEvent,
  user_format, nobody, see_for_register, register_user,
}
use fairway.Examples.Users.Changes.{
  ChangeEmail, no_emails, see_for_email, change_email, ChangeDetails, no_names, see_for_details,
  name_change, details_change, change_user_details, is_given, see_for_password, change_password,
}
use fairway.Examples.Users.Views.{Profile}
use fairway.Examples.Users.Names.{name_of}
use fairway.Examples.Users.Emails.{email_of}
use fairway.Examples.Users.Current.{current_email-email_of, current_username-name_of}
use fairway.Examples.Users.Decided.{
  decide_registration-appends, decide_email-appends, decide_details-appends,
}
use fairway.Examples.Users.Profiles.{profile_of, Agrees, AllAgree, AllAgree-append}
use fairway.Examples.Users.History.{
  UserCommand, registers_user, changes_email, changes_details, changes_password, plan, is_welcome,
}

email_known :
    (p : Option Profile) (email name : Option Str) (current : Str)
    → Agrees p email name
    → email ≡ some current
    → p ≡ none
    → ⊥
email_known none email name current a is gone = cc (a.0, is)
email_known (some p) email name current a is gone = cc gone

name_known :
    (p : Option Profile) (email name : Option Str) (current : Str)
    → Agrees p email name
    → name ≡ some current
    → p ≡ none
    → ⊥
name_known none email name current a is gone = cc (a.1, is)
name_known (some p) email name current a is gone = cc gone

module _ (marshal : UserEvent → Result (List ℕ)) (unmarshal : Str → List ℕ → Result UserEvent)
    (hash : Str → Str) where
  abbrev format : Format UserEvent
  format = user_format marshal unmarshal

  email-agrees :
      (bs : List UserEvent) (cmd : ChangeEmail) (checked_at clock : ℕ) (e : UserEvent)
      (es : List UserEvent)
      → AllAgree bs
      → decision format (change_email cmd checked_at clock) bs ≡ append e es
      → AllAgree (bs ++ e ∷ es)
  unfolding decision change_email
  email-agrees bs cmd checked_at clock e es h d =
      let seen =
        feed (see_for_email cmd) no_emails
          (filter (wanted format (change_email cmd checked_at clock).query) bs) in
      let r = decide_email-appends e es cmd checked_at clock seen d in
      let has : email_of cmd.user_id bs ≡ some r.current =
        sym (current_email-email_of marshal unmarshal cmd checked_at clock bs) ∙ r.found in
      rw (r.alone, r.event)
        (AllAgree-append bs _ h λ u own gone.
          email_known (profile_of cmd.user_id bs) _ _ r.current (h cmd.user_id) has (
            subst (λ (x : Str). profile_of x bs ≡ none) (sym ((same_iff cmd.user_id u).0 own))
              gone))

  name-agrees :
      (bs : List UserEvent) (cmd : ChangeDetails) (clock : ℕ) (current : Str) (asked : Option Str)
      → cmd.username ≡ asked
      → AllAgree bs
      → name_of cmd.user_id bs ≡ some current
      → AllAgree (bs ++ name_change cmd clock current)
  unfolding name_change
  name-agrees bs cmd clock current none is h has = rw (is, append-nil bs) h
  name-agrees bs cmd clock current (some text) is h has = rw is (
      AllAgree-append bs _ h λ u own gone.
        name_known (profile_of cmd.user_id bs) _ _ current (h cmd.user_id) has
          (subst (λ (x : Str). profile_of x bs ≡ none) (sym ((same_iff cmd.user_id u).0 own)) gone))

  bio-agrees :
      (bs : List UserEvent) (cmd : ChangeDetails) (later : ℕ)
      → AllAgree bs
      → AllAgree (bs ++ details_change cmd later)
  unfolding details_change
  bio-agrees bs cmd later h = elim (Bool-cases (is_given cmd.bio || is_given cmd.image)) [
    | inr absent ↦ rw (absent, append-nil bs) h
    | inl given ↦ rw given (AllAgree-append bs _ h (λ u. tt))
  ]

  plan-agrees :
      (c : UserCommand) (bs : List UserEvent) (e : UserEvent) (es : List UserEvent)
      → AllAgree bs
      → decision format (plan hash c) bs ≡ append e es
      → AllAgree (bs ++ e ∷ es)
  unfolding decision register_user change_user_details change_password
  plan-agrees (registers_user cmd clock) bs e es h d =
      let r =
        decide_registration-appends e es cmd clock
          (feed (see_for_register cmd) nobody
            (filter (wanted format (register_user cmd clock).query) bs))
          d in
      rw (r.alone, r.event) (AllAgree-append bs _ h (λ u. tt))
  plan-agrees (changes_email cmd checked_at clock) bs e es h d =
      email-agrees bs cmd checked_at clock e es h d
  plan-agrees (changes_details cmd clock later) bs e es h d =
      let r =
        decide_details-appends e es cmd clock later
          (feed (see_for_details cmd) no_names
            (filter (wanted format (change_user_details cmd clock later).query) bs))
          d in
      let has : name_of cmd.user_id bs ≡ some r.current =
        sym (current_username-name_of marshal unmarshal cmd clock later bs) ∙ r.found in
      rw (r.events, ← append_assoc bs (name_change cmd clock r.current) (details_change cmd later))
        (bio-agrees (bs ++ name_change cmd clock r.current) cmd later
          (name-agrees bs cmd clock r.current cmd.username refl h has))
  plan-agrees (changes_password cmd clock) bs e es h d =
      elim (Bool-cases (
        feed (see_for_password hash cmd) false
          (filter (wanted format (change_password hash cmd clock).query) bs))) [
            | inr unknown ↦ cc (rw unknown at d)
            | inl known ↦
                let (event, alone) = append-injective (rw known at d) in
                rw (event, alone) (AllAgree-append bs _ h (λ u. tt))
          ]

  welcome-agrees :
      (bs : List UserEvent) (t : ℕ) (b : UserData)
      → AllAgree bs
      → is_welcome (record { occurred_at = t; body = b }) ≡ true
      → AllAgree (bs ++ (record { occurred_at = t; body = b }) ∷ [])
  welcome-agrees bs t (user_welcome_email_sent id) h is =
      AllAgree-append bs (record { occurred_at = t; body = user_welcome_email_sent id }) h (λ u. tt)
  welcome-agrees bs t (user_registered id name email hashed) h is = cc is
  welcome-agrees bs t (user_changed_their_email id previous new) h is = cc is
  welcome-agrees bs t (user_changed_their_name id previous new) h is = cc is
  welcome-agrees bs t (user_changed_details id bio image) h is = cc is
  welcome-agrees bs t (user_changed_their_password id hashed) h is = cc is

  pub Sequential-AllAgree :
      (bs : List UserEvent) → Sequential format (plan hash) is_welcome bs → AllAgree bs
  Sequential-AllAgree bs empty = λ u. (refl, refl)
  Sequential-AllAgree bs (command old c e es cs before d is) =
      subst AllAgree (sym is) (plan-agrees c old e es (Sequential-AllAgree old before) d)
  Sequential-AllAgree bs (effect old e cs before welcome is) =
      subst AllAgree (sym is)
        (welcome-agrees old e.occurred_at e.body (Sequential-AllAgree old before) welcome)
