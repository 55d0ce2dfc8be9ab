-- ===== src/Examples/Users/Handlers.antt =====
-- The HTTP handlers of examples/realworldapp/change, and ExtractUserID of crypto/jwt.go. `parsed` is what
-- JsonParse made of the body, `user` what ExtractUserID made of the request, `run` is RunPure,
-- `validate` stands for the check of a token by the JWT library, and `hash` for bcrypt.
pub mod Tokens
use fairway.Base.{ℕ, Bool, true, false, List, [], ◌∷◌, Option, none, some, codes, if◌then◌else◌}
use fairway.Base.Order.{ℕ_ord, list_ord, same}
use fairway.Fdb.{Str}
use fairway.Dcb.Types.{Result, ok, err, Error, no_data, bad_data}
use fairway.Command.Plans.{Outcome, appended, unchanged, refused, failed}
use fairway.Examples.Http.{Response, problem, value, write_header, encode}
use fairway.Examples.Users.{UserError, conflict, not_found, RegisterUser}
use fairway.Examples.Users.Changes.{ChangeEmail, ChangeDetails, ChangePassword}

abbrev pub with_first : ℕ → Option (Str × Str) → Option (Str × Str)
with_first c none = none
with_first c (some (before, after)) = some (c ∷ before, after)

-- strings.SplitN(s, " ", 2), which has one part without a space, and else two
unfoldable pub split_2 : Str → Option (Str × Str)
split_2 [] = none
split_2 (c ∷ cs) = elim (same c 32) [ true ↦ some ([], cs) | false ↦ with_first c (split_2 cs) ]

-- A missing header is the empty text; its two errors are `no_data` and `bad_data`.
unfoldable pub extract_user_id : (Str → Result Str) → Str → Result Str
unfolding split_2
extract_user_id validate [] = err no_data
extract_user_id validate (c ∷ cs) = elim (split_2 (c ∷ cs)) [
  | none ↦ err bad_data
  | some (scheme, token) ↦ if same scheme (codes "Token") then validate token else err bad_data
]

module _ {S B : Type 0} where
  -- The end of the handlers of changes: 204, or the status of the command's error.
  unfoldable pub answer_change : Outcome S UserError → Response B → Response B
  unfolding write_header encode
  answer_change (appended s) w = write_header 204 w
  answer_change unchanged w = write_header 204 w
  answer_change (refused conflict) w = write_header 409 w
  answer_change (refused not_found) w = write_header 404 w
  answer_change (failed e) w = encode (problem e) (write_header 500 w)

  -- That of POST /users, whose command has one error.
  unfoldable pub answer_registration : Outcome S UserError → Response B → Response B
  unfolding write_header encode
  answer_registration (appended s) w = write_header 201 w
  answer_registration unchanged w = write_header 201 w
  answer_registration (refused x) w = write_header 409 w
  answer_registration (failed e) w = encode (problem e) (write_header 500 w)

  -- The guards of the handlers of changes.
  unfoldable pub guarded :
      {A : Type 0}
      → (Str → A → Outcome S UserError)
      → Result Str
      → Result A
      → Response B
      → Response B
  unfolding write_header encode answer_change
  guarded run (err e) parsed w = write_header 401 w
  guarded run (ok user_id) (err e) w = encode (problem e) (write_header 400 w)
  guarded run (ok user_id) (ok req) w = answer_change (run user_id req) w

  -- PUT /user/email
  unfoldable pub change_email_handler :
      (ChangeEmail → Outcome S UserError) → ℕ → Result Str → Result Str → Response B → Response B
  unfolding guarded
  change_email_handler run now user parsed w =
      guarded (λ user_id email. run (record { user_id = user_id; email = email; now = now })) user
        parsed w

  -- PUT /user/password
  unfoldable pub change_password_handler :
      (ChangePassword → Outcome S UserError) → Result Str → Result Str → Response B → Response B
  unfolding guarded
  change_password_handler run user parsed w =
      guarded
        (λ user_id password. run (record { user_id = user_id; cleartext_password = password })) user
        parsed w

pub record DetailsBody : Type 0 where
  pub username : Option Str
  pub bio : Option Str
  pub image : Option Str

pub record RegisterBody : Type 0 where
  pub id : Str
  pub username : Str
  pub email : Str
  pub password : Str

module _ {S B : Type 0} where
  -- PATCH /user/details
  unfoldable pub change_details_handler :
      (ChangeDetails → Outcome S UserError)
      → Result Str
      → Result DetailsBody
      → Response B
      → Response B
  unfolding guarded
  change_details_handler run user parsed w =
      guarded
        (λ user_id (req : DetailsBody).
          run (record {
            user_id = user_id;
            username = req.username;
            bio = req.bio;
            image = req.image;
          }))
        user parsed w

  -- POST /users
  unfoldable pub register_handler :
      (RegisterUser → Outcome S UserError)
      → (Str → Str)
      → ℕ
      → Result RegisterBody
      → Response B
      → Response B
  unfolding write_header encode answer_registration
  register_handler run hash now (err e) w = encode (problem e) (write_header 400 w)
  register_handler run hash now (ok req) w =
      answer_registration
        (run (record {
          id = req.id;
          name = req.username;
          email = req.email;
          hashed_password = hash req.password;
          now = now;
        }))
        w
