-- ===== src/Examples/Users/Views.antt =====
-- examples/realworldapp/view: login and getcurrentuser. `matches` stands for bcrypt, and `token` for the
-- signature of a token.
use fairway.Base.{Bool, true, false, [], ◌∷◌, Option, none, some, codes, if◌then◌else◌}
use fairway.Base.Order.{ℕ_ord, list_ord}
use fairway.Fdb.{Str}
use fairway.Dcb.Types.{Query, Result, ok, err}
use fairway.Command.{DcbStore, view_read_events}
use fairway.Command.Plans.{Format, from_dcb_event}
use fairway.Examples.Http.{Response, problem, value, write_header, encode}
use fairway.Examples.Users.{
  user_registered, user_changed_their_email, user_changed_their_name, user_changed_details,
  user_changed_their_password, user_welcome_email_sent, UserEvent, item, user_id_tag,
  user_email_tag,
}

pub record LoginBody : Type 0 where
  pub email : Str
  pub password : Str

-- What login keeps of a UserRegistered.
pub record FoundUser : Type 0 where
  pub id : Str
  pub hashed_password : Str

abbrev pub login_query : Str → Query
login_query email = record {
  items = item (codes "UserRegistered" ∷ []) (user_email_tag email) ∷ [];
}

-- The handler of the read of login
unfoldable pub find_user : Option FoundUser → UserEvent → Option FoundUser × Bool
find_user found e = elim e.body [
  | user_registered id name email hashed ↦
      (some (record { id = id; hashed_password = hashed }), false)
  | user_changed_their_email id previous new ↦ (found, true)
  | user_changed_their_name id previous new ↦ (found, true)
  | user_changed_details id bio image ↦ (found, true)
  | user_changed_their_password id hashed ↦ (found, true)
  | user_welcome_email_sent id ↦ (found, true)
]

module _ (matches : Str → Str → Bool) (token : Str → Result Str) where
  -- The end of the handler, once the read has succeeded.
  unfoldable pub grant : Str → Option FoundUser → Response Str → Response Str
  unfolding write_header encode
  grant password none w = write_header 401 w
  grant password (some user) w =
      if matches user.hashed_password password
      then elim (token user.id) [
        | err e ↦ encode (problem e) (write_header 500 w)
        | ok t ↦ encode (value t) w
      ]
      else write_header 401 w

  -- The handler of POST /users/login: `parsed` is what JsonParse made of the body.
  unfoldable pub login_handler :
      Format UserEvent
      → (store : DcbStore) → store.S
      → Bool
      → Result LoginBody
      → Response Str
      → Response Str
  unfolding view_read_events find_user grant write_header encode
  login_handler f store s ctx_done (err e) w = encode (problem e) (write_header 400 w)
  login_handler f store s ctx_done (ok req) w =
      let (found, outcome) =
        view_read_events (from_dcb_event f) find_user store s ctx_done (login_query req.email)
          none in
      elim outcome [
        | err e ↦ encode (problem e) (write_header 500 w)
        | ok done ↦ grant req.password found w
      ]

-- userState, and the body of the response
pub record Profile : Type 0 where
  pub email : Str
  pub username : Str
  pub bio : Str
  pub image : Str

abbrev pub profile_query : Str → Query
profile_query user_id = record {
  items =
      item
        (codes "UserRegistered"
          ∷ codes "UserChangedTheirName"
          ∷ codes "UserChangedTheirEmail"
          ∷ codes "UserChangedDetails"
          ∷ [])
        (user_id_tag user_id)
      ∷ [];
}

-- if x != nil { field = *x }
abbrev pub given_or : Option Str → Str → Str
given_or none old = old
given_or (some new) old = new

-- A change of a user that no UserRegistered has made is left out.
abbrev pub changed : (Profile → Profile) → Option Profile → Option Profile
changed f none = none
changed f (some p) = some (f p)

unfoldable pub see_user : Option Profile → UserEvent → Option Profile × Bool
see_user user e = elim e.body [
  | user_registered id name email hashed ↦
      (some (record { email = email; username = name; bio = []; image = [] }), true)
  | user_changed_their_name id previous new ↦
      (changed (λ p. record p { username = new }) user, true)
  | user_changed_their_email id previous new ↦ (changed (λ p. record p { email = new }) user, true)
  | user_changed_details id bio image ↦ (
    changed (λ p. record p { bio = given_or bio p.bio; image = given_or image p.image }) user,
    true,
  )
  | user_changed_their_password id hashed ↦ (user, true)
  | user_welcome_email_sent id ↦ (user, true)
]

-- The end of the handler, once the read has succeeded.
unfoldable pub answer_profile : Option Profile → Response Profile → Response Profile
unfolding write_header encode
answer_profile none w = write_header 404 w
answer_profile (some profile) w = encode (value profile) w

-- The handler of GET /user: `user` is what ExtractUserID makes of the request.
unfoldable pub current_user_handler :
    Format UserEvent
    → (store : DcbStore) → store.S
    → Bool
    → Result Str
    → Response Profile
    → Response Profile
unfolding view_read_events see_user answer_profile write_header encode
current_user_handler f store s ctx_done (err e) w = write_header 401 w
current_user_handler f store s ctx_done (ok user_id) w =
    let (user, outcome) =
      view_read_events (from_dcb_event f) see_user store s ctx_done (profile_query user_id) none in
    elim outcome [
      | err e ↦ encode (problem e) (write_header 500 w)
      | ok done ↦ answer_profile user w
    ]
