-- ===== src/Examples/Users.antt =====
-- examples/realworldapp/event and the commands of examples/realworldapp/change: registering, and changes of
-- email, details and password. A time is a number of nanoseconds, `clock` stands for what time.Now()
-- returns in a run, `hash` for bcrypt, and a map is the list of its entries.
pub mod Changes
pub mod Views
pub mod Login
pub mod Handlers
pub mod Welcome
pub mod Ownership
pub mod Ids
pub mod Names
pub mod Emails
pub mod Decided
pub mod Unique
pub mod Current
pub mod Profiles
pub mod Kept
pub mod History
pub mod Shown
pub mod CurrentUser
use fairway.Base.{
  ℕ, ◌+◌, ◌*◌, Bool, true, false, ◌||◌, List, [], ◌∷◌, ◌++◌, Option, none, some, codes, ltb, any,
  if◌then◌else◌,
}
use fairway.Base.Order.{ℕ_ord, list_ord, same}
use fairway.Fdb.{Str}
use fairway.Dcb.Types.{QueryItem, Query, Result}
use fairway.Command.Plans.{Format, Plan, Decision, append, nothing, refuse}

pub data UserData : Type 0 where
  -- Id, Name, Email, HashedPassword
  user_registered : Str → Str → Str → Str → UserData
  -- UserId, PreviousEmail, NewEmail
  user_changed_their_email : Str → Str → Str → UserData
  -- UserId, PreviousUsername, NewUsername
  user_changed_their_name : Str → Str → Str → UserData
  -- UserId, Bio, Image
  user_changed_details : Str → Option Str → Option Str → UserData
  -- UserId, NewHashedPassword
  user_changed_their_password : Str → Str → UserData
  -- UserId
  user_welcome_email_sent : Str → UserData

pub record UserEvent : Type 0 where
  pub occurred_at : ℕ
  pub body : UserData

abbrev pub user_id_tag : Str → Str
user_id_tag id = codes "user_id:" ++ id

abbrev pub user_name_tag : Str → Str
user_name_tag name = codes "username:" ++ name

abbrev pub user_email_tag : Str → Str
user_email_tag email = codes "email:" ++ email

abbrev pub tags_of : UserData → List Str
tags_of (user_registered id name email hashed) =
    user_id_tag id ∷ user_name_tag name ∷ user_email_tag email ∷ []
tags_of (user_changed_their_email id previous new) =
    user_id_tag id ∷ user_email_tag new ∷ user_email_tag previous ∷ []
tags_of (user_changed_their_name id previous new) =
    user_id_tag id ∷ user_name_tag new ∷ user_name_tag previous ∷ []
tags_of (user_changed_details id bio image) = user_id_tag id ∷ []
tags_of (user_changed_their_password id hashed) = user_id_tag id ∷ []
tags_of (user_welcome_email_sent id) = user_id_tag id ∷ []

-- reflect.TypeOf(e.Data).Name()
abbrev pub type_of : UserData → Str
type_of (user_registered id name email hashed) = codes "UserRegistered"
type_of (user_changed_their_email id previous new) = codes "UserChangedTheirEmail"
type_of (user_changed_their_name id previous new) = codes "UserChangedTheirName"
type_of (user_changed_details id bio image) = codes "UserChangedDetails"
type_of (user_changed_their_password id hashed) = codes "UserChangedTheirPassword"
type_of (user_welcome_email_sent id) = codes "UserWelcomeEmailSent"

abbrev pub user_format :
    (UserEvent → Result (List ℕ)) → (Str → List ℕ → Result UserEvent) → Format UserEvent
user_format marshal unmarshal = record {
  type_of = λ e. type_of e.body;
  tags_of = λ e. tags_of e.body;
  marshal = marshal;
  unmarshal = unmarshal;
}

-- m[k] = v
unfoldable pub put {ℓ} : {V : Type ℓ} → Str → V → List (Str × V) → List (Str × V)
put k v [] = (k, v) ∷ []
put k v ((x, w) ∷ m) = if same x k then (k, v) ∷ m else (x, w) ∷ put k v m

-- conflictErr and notFoundErr
pub data UserError : Type 0 where
  conflict not_found : UserError

-- 3 * 24 * time.Hour
abbrev pub email_release_duration : ℕ
email_release_duration = 3 * 24 * 3600 * 1000000000

-- releasedAt == nil || releasedAt.After(now.Add(-emailReleaseDuration))
unfoldable pub is_held : ℕ → Str × Option ℕ → Bool
is_held now (id, none) = true
is_held now (id, some released_at) = ltb now (released_at + email_release_duration)

abbrev pub is_owned : Str × Bool → Bool
is_owned (id, owns) = owns

abbrev pub item : List Str → Str → QueryItem
item types tag = record { types = types; tags = tag ∷ [] }

abbrev pub registered_or_name : List Str
registered_or_name = codes "UserRegistered" ∷ codes "UserChangedTheirName" ∷ []

abbrev pub registered_or_email : List Str
registered_or_email = codes "UserRegistered" ∷ codes "UserChangedTheirEmail" ∷ []

pub record RegisterUser : Type 0 where
  pub id : Str
  pub name : Str
  pub email : Str
  pub hashed_password : Str
  pub now : ℕ

pub record RegisterSeen : Type 0 where
  pub id_taken : Bool
  pub email_ownership : List (Str × Option ℕ)
  pub name_ownership : List (Str × Bool)

abbrev pub nobody : RegisterSeen
nobody = record { id_taken = false; email_ownership = []; name_ownership = [] }

module _ (cmd : RegisterUser) where
  unfoldable pub see_for_register : RegisterSeen → UserEvent → RegisterSeen × Bool
  unfolding put
  see_for_register h e = elim e.body [
    | user_registered id name email hashed ↦
        if same id cmd.id then (record h { id_taken = true }, false) else (
          record h {
            email_ownership =
                if same email cmd.email then put id none h.email_ownership else h.email_ownership;
            name_ownership =
                if same name cmd.name then put id true h.name_ownership else h.name_ownership;
          },
          true,
        )
    | user_changed_their_email id previous new ↦ (
      record h {
        email_ownership =
            if same new cmd.email
            then put id none h.email_ownership
            else if same previous cmd.email
            then put id (some e.occurred_at) h.email_ownership
            else h.email_ownership;
      },
      true,
    )
    | user_changed_their_name id previous new ↦ (
      record h {
        name_ownership =
            if same new cmd.name
            then put id true h.name_ownership
            else if same previous cmd.name
            then put id false h.name_ownership
            else h.name_ownership;
      },
      true,
    )
    | user_changed_details id bio image ↦ (h, true)
    | user_changed_their_password id hashed ↦ (h, true)
    | user_welcome_email_sent id ↦ (h, true)
  ]

  unfoldable pub decide_registration : ℕ → RegisterSeen → Decision UserEvent UserError
  unfolding is_held
  decide_registration clock h =
      if h.id_taken || any (is_held cmd.now) h.email_ownership || any is_owned h.name_ownership
      then refuse conflict
      else append
          (record {
            occurred_at = clock;
            body = user_registered cmd.id cmd.name cmd.email cmd.hashed_password;
          })
          []

  unfoldable pub register_user : ℕ → Plan UserEvent UserError
  unfolding see_for_register decide_registration
  register_user clock = record {
    H = RegisterSeen;
    query = record {
      items =
          item (codes "UserRegistered" ∷ []) (user_id_tag cmd.id)
          ∷ item registered_or_name (user_name_tag cmd.name)
          ∷ item registered_or_email (user_email_tag cmd.email)
          ∷ [];
    };
    start = nobody;
    handler = see_for_register;
    decide = decide_registration clock;
  }
