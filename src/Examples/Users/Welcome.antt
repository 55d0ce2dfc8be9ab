-- ===== src/Examples/Users/Welcome.antt =====
-- examples/realworldapp/automate/userregistered/user_registered.go: the welcome email. `send` stands for
-- the EmailSender, which returns the text of its error if it fails.
pub mod Once
use fairway.Base.{
  ℕ, ◌≡◌, refl, sym, ap, ◌∙◌, inl, inr, Bool, true, false, Bool-cases, ◌||◌, List, [], ◌∷◌, ◌++◌,
  Option, none, some, codes, any, any-append, filter, arith, if◌then◌else◌,
}
use fairway.Base.Order.{ℕ_ord, list_ord, same, same_self}
use fairway.Fdb.{Str}
use fairway.Dcb.Types.{Query, StoredEvent, Result, ok, err}
use fairway.Dcb.Append.{validate, stored_from}
use fairway.Command.{
  DcbStore, ReadRecord, read_events, serialize_events, append_events_no_condition,
}
use fairway.Command.Conditions.{log_store}
use fairway.Command.Reads.{log_read}
use fairway.Command.Plans.{
  Format, RoundTrips, Outcome, appended, unchanged, refused, failed, conclude, to_dcb_event,
  from_dcb_event, wanted, feed,
}
use fairway.Command.Plans.Serial.{conclude-appended}
use fairway.Command.Plans.Sequential.{effect-Written}
use fairway.Command.Plans.Written.{Written, Written-append, filter-Written, dispatch-feed}
use fairway.Examples.Users.{
  UserData, user_registered, user_changed_their_email, user_changed_their_name,
  user_changed_details, user_changed_their_password, user_welcome_email_sent, UserEvent,
  user_format, item, user_id_tag,
}

pub record WelcomeCommand : Type 0 where
  pub user_id : Str
  pub email : Str
  pub name : Str

-- The type assertion panics on events of other types.
unfoldable pub event_to_command : UserEvent → Option WelcomeCommand
event_to_command e = elim e.body [
  | user_registered id name email hashed ↦
      some (record { user_id = id; email = email; name = name })
  | user_changed_their_email id previous new ↦ none
  | user_changed_their_name id previous new ↦ none
  | user_changed_details id bio image ↦ none
  | user_changed_their_password id hashed ↦ none
  | user_welcome_email_sent id ↦ none
]

unfoldable pub note_sent : Bool → UserEvent → Bool × Bool
note_sent already_sent e = (true, false)

abbrev pub welcome_query : Str → Query
welcome_query user_id = record {
  items = item (codes "UserWelcomeEmailSent" ∷ []) (user_id_tag user_id) ∷ [];
}

abbrev pub welcome_event : Str → ℕ → UserEvent
welcome_event user_id clock = record { occurred_at = clock; body = user_welcome_email_sent user_id }

-- Run: whether the email was handed to the sender, and the outcome. The read and the append meet the store
-- in two states.
unfoldable pub run_welcome :
    Format UserEvent
    → (Str → Str → Option Str)
    → (store : DcbStore) → Bool
    → WelcomeCommand
    → ℕ
    → store.S
    → store.S
    → Bool × Outcome store.S Str
unfolding read_events note_sent append_events_no_condition to_dcb_event conclude
run_welcome f send store ctx_done cmd clock s₁ s₂ =
    let (already_sent, outcome) =
      read_events (from_dcb_event f) note_sent store s₁ ctx_done (welcome_query cmd.user_id) none
        false [] in
    elim outcome [
      | err e ↦ (false, failed e)
      | ok reads ↦ elim already_sent [
        | true ↦ (false, unchanged)
        | false ↦ elim (send cmd.email cmd.name) [
          | some e ↦ (true, refused e)
          | none ↦ (
            true,
            conclude (
                append_events_no_condition (to_dcb_event f) store s₂
                  (welcome_event cmd.user_id clock) []),
          )
        ]
      ]
    ]
