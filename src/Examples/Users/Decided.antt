-- ===== src/Examples/Users/Decided.antt =====
-- What the commands of users have found when they append.
use fairway.Base.{
  ℕ, ◌≡◌, refl, inl, inr, false, Bool-cases, List, [], ◌∷◌, ◌++◌, Option, none, some, any,
}
use fairway.Fdb.{Str}
use fairway.Command.Plans.{append, append-injective}
use fairway.Examples.Users.{
  user_registered, user_changed_their_email, UserEvent, is_held, is_owned, RegisterUser,
  RegisterSeen, decide_registration,
}
use fairway.Examples.Users.Changes.{
  ChangeEmail, EmailSeen, decide_email, ChangeDetails, NameSeen, append_all, decide_details,
  name_change, details_change,
}

module _ (e : UserEvent) (es : List UserEvent) where
  -- A registration that is appended has found the id, the email and the name free.
  pub record Registration (cmd : RegisterUser) (clock : ℕ) (h : RegisterSeen) : Type 0 where
    pub alone : es ≡ []
    pub event : e ≡ record {
      occurred_at = clock;
      body = user_registered cmd.id cmd.name cmd.email cmd.hashed_password;
    }
    pub id_is_free : h.id_taken ≡ false
    pub email_is_free : any (is_held cmd.now) h.email_ownership ≡ false
    pub name_is_free : any is_owned h.name_ownership ≡ false

  pub decide_registration-appends :
      (cmd : RegisterUser) (clock : ℕ) (h : RegisterSeen)
      → decide_registration cmd clock h ≡ append e es
      → Registration cmd clock h
  unfolding decide_registration
  decide_registration-appends cmd clock h d = elim (Bool-cases h.id_taken) [
    | inl taken ↦ cc (rw taken at d)
    | inr free ↦ elim (Bool-cases (any (is_held cmd.now) h.email_ownership)) [
      | inl held ↦ cc (rw (free, held) at d)
      | inr released ↦ elim (Bool-cases (any is_owned h.name_ownership)) [
        | inl owned ↦ cc (rw (free, released, owned) at d)
        | inr unowned ↦
            let (event, alone) = append-injective (rw (free, released, unowned) at d) in
            record {
              alone = alone;
              event = event;
              id_is_free = free;
              email_is_free = released;
              name_is_free = unowned;
            }
      ]
    ]
  ]

  -- A change of email that is appended has found the user, and the email free.
  pub record EmailChange (cmd : ChangeEmail) (checked_at clock : ℕ) (h : EmailSeen) : Type 0 where
    pub alone : es ≡ []
    pub current : Str
    pub found : h.current_email ≡ some current
    pub event : e ≡ record {
      occurred_at = clock;
      body = user_changed_their_email cmd.user_id current cmd.email;
    }
    pub email_is_free : any (is_held checked_at) h.email_ownership ≡ false

  pub decide_email-appends :
      (cmd : ChangeEmail) (checked_at clock : ℕ) (h : EmailSeen)
      → decide_email cmd checked_at clock h ≡ append e es
      → EmailChange cmd checked_at clock h
  unfolding decide_email
  decide_email-appends cmd checked_at clock h d = at h.current_email refl d
    where
      at :
          (c : Option Str)
          → h.current_email ≡ c
          → decide_email cmd checked_at clock h ≡ append e es
          → EmailChange cmd checked_at clock h
      at none is d = cc (rw is at d)
      at (some current) is d = elim (Bool-cases (any (is_held checked_at) h.email_ownership)) [
        | inl held ↦ cc (rw (is, held) at d)
        | inr released ↦
            let (event, alone) = append-injective (rw (is, released) at d) in
            record {
              alone = alone;
              current = current;
              found = is;
              event = event;
              email_is_free = released;
            }
      ]

  append_all-appends : (l : List UserEvent) → append_all l ≡ append e es → e ∷ es ≡ l
  append_all-appends [] h = cc h
  append_all-appends (x ∷ xs) h = let (event, rest) = append-injective h in rw (event, rest) refl

  -- A change of details that is appended has found the user, and no one else with the name.
  pub record DetailsChange (cmd : ChangeDetails) (clock later : ℕ) (h : NameSeen) : Type 0 where
    pub current : Str
    pub found : h.current_username ≡ some current
    pub events : e ∷ es ≡ name_change cmd clock current ++ details_change cmd later
    pub name_is_free : any is_owned h.other_has_username ≡ false

  pub decide_details-appends :
      (cmd : ChangeDetails) (clock later : ℕ) (h : NameSeen)
      → decide_details cmd clock later h ≡ append e es
      → DetailsChange cmd clock later h
  unfolding decide_details
  decide_details-appends cmd clock later h d = at h.current_username refl d
    where
      at :
          (c : Option Str)
          → h.current_username ≡ c
          → decide_details cmd clock later h ≡ append e es
          → DetailsChange cmd clock later h
      at none is d = cc (rw is at d)
      at (some current) is d = elim (Bool-cases (any is_owned h.other_has_username)) [
        | inl owned ↦ cc (rw (is, owned) at d)
        | inr unowned ↦ record {
          current = current;
          found = is;
          events = append_all-appends _ (rw (is, unowned) at d);
          name_is_free = unowned;
        }
      ]
