-- ===== src/Examples/Users/Profiles.antt =====
-- What GET /user shows of a user, on the logs that the commands reach.
use fairway.Base.{
  ◌≡◌, refl, inl, inr, true, Bool-cases, List, [], ◌∷◌, ◌++◌, Option, none, some, if◌then◌else◌,
}
use fairway.Base.Order.{ℕ_ord, list_ord, same}
use fairway.Fdb.{Str}
use fairway.Command.Plans.Tracking.{trace, trace-append}
use fairway.Examples.Users.{
  UserData, user_registered, user_changed_their_email, user_changed_their_name,
  user_changed_details, user_changed_their_password, user_welcome_email_sent, UserEvent,
}
use fairway.Examples.Users.Views.{Profile, changed, given_or}
use fairway.Examples.Users.Names.{next_name, name_of}
use fairway.Examples.Users.Emails.{next_email, email_of}

-- The profile of a user after an event.
abbrev pub next_profile : Str → Option Profile → UserData → Option Profile
next_profile u p (user_registered id name email hashed) =
    if same id u then some (record { email = email; username = name; bio = []; image = [] }) else p
next_profile u p (user_changed_their_name id previous new) =
    if same id u then changed (λ x. record x { username = new }) p else p
next_profile u p (user_changed_their_email id previous new) =
    if same id u then changed (λ x. record x { email = new }) p else p
next_profile u p (user_changed_details id bio image) =
    if same id u
    then changed (λ x. record x { bio = given_or bio x.bio; image = given_or image x.image }) p
    else p
next_profile u p (user_changed_their_password id hashed) = p
next_profile u p (user_welcome_email_sent id) = p

abbrev pub profile_of : Str → List UserEvent → Option Profile
profile_of u es = trace (λ p e. next_profile u p e.body) none es

-- The profile shows the current email and username of the user, who has both or none.
abbrev pub Agrees : Option Profile → Option Str → Option Str → Type 0
Agrees none email name = (email ≡ none) × (name ≡ none)
Agrees (some p) email name = (email ≡ some p.email) × (name ≡ some p.username)

-- An event that changes the user's email or username finds the user registered.
abbrev pub Known : Option Profile → UserData → Str → Type 0
Known p (user_registered id name email hashed) u = Unit
Known p (user_changed_their_name id previous new) u = same id u ≡ true → p ≡ none → ⊥
Known p (user_changed_their_email id previous new) u = same id u ≡ true → p ≡ none → ⊥
Known p (user_changed_details id bio image) u = Unit
Known p (user_changed_their_password id hashed) u = Unit
Known p (user_welcome_email_sent id) u = Unit

Agrees-next :
    (u : Str) (p : Option Profile) (email name : Option Str) (b : UserData)
    → Known p b u
    → Agrees p email name
    → Agrees (next_profile u p b) (next_email u email b) (next_name u name b)
Agrees-next u p email name (user_registered id n e hashed) known a = elim (Bool-cases (same id u)) [
  | inl own ↦ rw own (refl, refl)
  | inr other ↦ rw other a
]
Agrees-next u none email name (user_changed_their_email id previous new) known a =
    elim (Bool-cases (same id u)) [ inl own ↦ absurd (known own refl) | inr other ↦ rw other a ]
Agrees-next u (some p) email name (user_changed_their_email id previous new) known a =
    elim (Bool-cases (same id u)) [ inl own ↦ rw own (refl, a.1) | inr other ↦ rw other a ]
Agrees-next u none email name (user_changed_their_name id previous new) known a =
    elim (Bool-cases (same id u)) [ inl own ↦ absurd (known own refl) | inr other ↦ rw other a ]
Agrees-next u (some p) email name (user_changed_their_name id previous new) known a =
    elim (Bool-cases (same id u)) [ inl own ↦ rw own (a.0, refl) | inr other ↦ rw other a ]
Agrees-next u none email name (user_changed_details id bio image) known a =
    elim (Bool-cases (same id u)) [ inl own ↦ rw own a | inr other ↦ rw other a ]
Agrees-next u (some p) email name (user_changed_details id bio image) known a =
    elim (Bool-cases (same id u)) [ inl own ↦ rw own a | inr other ↦ rw other a ]
Agrees-next u p email name (user_changed_their_password id hashed) known a = a
Agrees-next u p email name (user_welcome_email_sent id) known a = a

-- One more event.
abbrev pub AllAgree : List UserEvent → Type 0
AllAgree es = (u : Str) → Agrees (profile_of u es) (email_of u es) (name_of u es)

pub AllAgree-append :
    (es : List UserEvent) (e : UserEvent)
    → AllAgree es
    → ((u : Str) → Known (profile_of u es) e.body u)
    → AllAgree (es ++ e ∷ [])
AllAgree-append es e h known u =
    rw
      (
        trace-append (λ (p : Option Profile) (x : UserEvent). next_profile u p x.body) none es
            (e ∷ []),
        trace-append (λ (c : Option Str) (x : UserEvent). next_email u c x.body) none es (e ∷ []),
        trace-append (λ (c : Option Str) (x : UserEvent). next_name u c x.body) none es (e ∷ []),
      )
      (Agrees-next u (profile_of u es) (email_of u es) (name_of u es) e.body (known u) (h u))
