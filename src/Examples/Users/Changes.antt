-- ===== src/Examples/Users/Changes.antt =====
-- examples/realworldapp/change: changeemail, changeuserdetails and changepassword, and the automation
-- userregistered. `hash` stands for bcrypt.
use fairway.Base.{
  ℕ, Bool, true, false, not, ◌&&◌, ◌||◌, List, [], ◌∷◌, ◌++◌, Option, none, some, codes, any,
  if◌then◌else◌,
}
use fairway.Base.Order.{ℕ_ord, list_ord, same}
use fairway.Fdb.{Str}
use fairway.Dcb.Types.{QueryItem}
use fairway.Command.Plans.{Plan, Decision, append, nothing, refuse}
use fairway.Examples.Users.{
  user_registered, user_changed_their_email, user_changed_their_name, user_changed_details,
  user_changed_their_password, user_welcome_email_sent, UserEvent, UserError, conflict, not_found,
  put, is_held, is_owned, item, registered_or_name, registered_or_email, user_id_tag, user_name_tag,
  user_email_tag,
}

pub record ChangeEmail : Type 0 where
  pub user_id : Str
  pub email : Str
  pub now : ℕ

pub record EmailSeen : Type 0 where
  pub current_email : Option Str
  pub email_ownership : List (Str × Option ℕ)

abbrev pub no_emails : EmailSeen
no_emails = record { current_email = none; email_ownership = [] }

module _ (cmd : ChangeEmail) where
  unfoldable pub see_for_email : EmailSeen → UserEvent → EmailSeen × Bool
  unfolding put
  see_for_email h e = elim e.body [
    | user_registered id name email hashed ↦ (
      record {
        current_email = if same id cmd.user_id then some email else h.current_email;
        email_ownership =
            if same email cmd.email && not (same id cmd.user_id)
            then put id none h.email_ownership
            else h.email_ownership;
      },
      true,
    )
    | user_changed_their_email id previous new ↦ (
      record {
        current_email = if same id cmd.user_id then some new else h.current_email;
        email_ownership =
            if same id cmd.user_id
            then h.email_ownership
            else if same new cmd.email
            then put id none h.email_ownership
            else if same previous cmd.email
            then put id (some e.occurred_at) h.email_ownership
            else h.email_ownership;
      },
      true,
    )
    | user_changed_their_name id previous new ↦ (h, true)
    | user_changed_details id bio image ↦ (h, true)
    | user_changed_their_password id hashed ↦ (h, true)
    | user_welcome_email_sent id ↦ (h, true)
  ]

  -- The check of releases asks time.Now(), and not the time of the command.
  unfoldable pub decide_email : ℕ → ℕ → EmailSeen → Decision UserEvent UserError
  unfolding is_held
  decide_email checked_at clock h = elim h.current_email [
    | none ↦ refuse not_found
    | some current ↦
        if any (is_held checked_at) h.email_ownership
        then refuse conflict
        else append
            (record {
              occurred_at = clock;
              body = user_changed_their_email cmd.user_id current cmd.email;
            })
            []
  ]

  unfoldable pub change_email : ℕ → ℕ → Plan UserEvent UserError
  unfolding see_for_email decide_email
  change_email checked_at clock = record {
    H = EmailSeen;
    query = record {
      items =
          item registered_or_email (user_id_tag cmd.user_id)
          ∷ item registered_or_email (user_email_tag cmd.email)
          ∷ [];
    };
    start = no_emails;
    handler = see_for_email;
    decide = decide_email checked_at clock;
  }

pub record ChangeDetails : Type 0 where
  pub user_id : Str
  pub username : Option Str
  pub bio : Option Str
  pub image : Option Str

pub record NameSeen : Type 0 where
  pub current_username : Option Str
  pub other_has_username : List (Str × Bool)

abbrev pub no_names : NameSeen
no_names = record { current_username = none; other_has_username = [] }

-- *cmd.username, if there is one, is this name.
abbrev pub asks_for : Option Str → Str → Bool
asks_for none name = false
asks_for (some username) name = same name username

-- return nil if len(events) == 0, and else AppendEvents(ctx, events[0], events[1:]...)
abbrev pub append_all : List UserEvent → Decision UserEvent UserError
append_all [] = nothing
append_all (event ∷ events) = append event events

abbrev pub is_given : Option Str → Bool
is_given none = false
is_given (some x) = true

module _ (cmd : ChangeDetails) where
  unfoldable pub see_for_details : NameSeen → UserEvent → NameSeen × Bool
  unfolding put
  see_for_details h e = elim e.body [
    | user_registered id name email hashed ↦ (
      record {
        current_username = if same id cmd.user_id then some name else h.current_username;
        other_has_username =
            if same id cmd.user_id
            then h.other_has_username
            else if asks_for cmd.username name
            then put id true h.other_has_username
            else h.other_has_username;
      },
      true,
    )
    | user_changed_their_name id previous new ↦ (
      record {
        current_username = if same id cmd.user_id then some new else h.current_username;
        other_has_username =
            if same id cmd.user_id
            then h.other_has_username
            else if asks_for cmd.username new
            then put id true h.other_has_username
            else if asks_for cmd.username previous
            then put id false h.other_has_username
            else h.other_has_username;
      },
      true,
    )
    | user_changed_their_email id previous new ↦ (h, true)
    | user_changed_details id bio image ↦ (h, true)
    | user_changed_their_password id hashed ↦ (h, true)
    | user_welcome_email_sent id ↦ (h, true)
  ]

  abbrev pub name_items : List QueryItem
  name_items = elim cmd.username [
    | none ↦ []
    | some username ↦ item registered_or_name (user_name_tag username) ∷ []
  ]

  -- The events of the change; `current` is *currentUsername.
  unfoldable pub name_change : ℕ → Str → List UserEvent
  name_change clock current = elim cmd.username [
    | none ↦ []
    | some username ↦
        (record {
          occurred_at = clock;
          body = user_changed_their_name cmd.user_id current username;
        })
        ∷ []
  ]

  unfoldable pub details_change : ℕ → List UserEvent
  details_change clock =
      if is_given cmd.bio || is_given cmd.image
      then (record {
        occurred_at = clock;
        body = user_changed_details cmd.user_id cmd.bio cmd.image;
      })
        ∷ []
      else []

  unfoldable pub decide_details : ℕ → ℕ → NameSeen → Decision UserEvent UserError
  unfolding name_change details_change
  decide_details clock later h = elim h.current_username [
    | none ↦ refuse not_found
    | some current ↦
        if any is_owned h.other_has_username
        then refuse conflict
        else append_all (name_change clock current ++ details_change later)
  ]

  unfoldable pub change_user_details : ℕ → ℕ → Plan UserEvent UserError
  unfolding see_for_details decide_details
  change_user_details clock later = record {
    H = NameSeen;
    query = record { items = item registered_or_name (user_id_tag cmd.user_id) ∷ name_items };
    start = no_names;
    handler = see_for_details;
    decide = decide_details clock later;
  }

pub record ChangePassword : Type 0 where
  pub user_id : Str
  pub cleartext_password : Str

module _ (hash : Str → Str) (cmd : ChangePassword) where
  unfoldable pub see_for_password : Bool → UserEvent → Bool × Bool
  see_for_password exists e = elim e.body [
    | user_registered id name email hashed ↦
        if same id cmd.user_id then (true, false) else (exists, true)
    | _ ↦ (exists, true)
  ]

  unfoldable pub change_password : ℕ → Plan UserEvent UserError
  unfolding see_for_password
  change_password clock = record {
    H = Bool;
    query = record { items = item (codes "UserRegistered" ∷ []) (user_id_tag cmd.user_id) ∷ [] };
    start = false;
    handler = see_for_password;
    decide = λ exists.
        if exists
        then append
            (record {
              occurred_at = clock;
              body = user_changed_their_password cmd.user_id (hash cmd.cleartext_password);
            })
            []
        else refuse not_found;
  }
