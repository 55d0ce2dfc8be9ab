-- ===== src/Dcb/Decode.antt =====
-- Reading a stored event back: `decodeEvent` and `fetchEvent` of dcb/read.go. The looks at the context
-- on the error paths are one Boolean: if it is done by then, its error is returned.
pub mod Fetched
use mathlib.Core.List.{append-nil}
use fairway.Base.{
  ℕ, ◌≡◌, refl, Bool, true, false, List, [], ◌∷◌, ◌++◌, Option, none, some, if◌then◌else◌,
}
use fairway.Fdb.{
  Str, Tuple, Stamp, Element, text, bytes, int, stamp, Field, plain, nested, nil, Database,
}
use fairway.Dcb.Types.{
  Versionstamp, to_stamp, of_stamp, Event, StoredEvent, Result, ok, err, ◌>>=◌, Error, context_done,
  no_data, bad_tuple, bad_type, bad_tags, bad_data, formatted,
}
use fairway.Dcb.Index.{FdbStore}

-- `if ctx.Err() != nil { return ctx.Err() }` before an error
abbrev pub unless_done {ℓ} : {A : Type ℓ} → Bool → Error → Result A
unless_done ctx_done e = err (if ctx_done then context_done else e)

-- eventTuple[0].(string)
unfoldable pub decode_type : Bool → Field → Result Str
decode_type ctx_done (plain (text s)) = ok s
decode_type ctx_done (plain (bytes b)) = unless_done ctx_done bad_type
decode_type ctx_done (plain (int n)) = unless_done ctx_done bad_type
decode_type ctx_done (plain (stamp s)) = unless_done ctx_done bad_type
decode_type ctx_done (nested t) = unless_done ctx_done bad_type
decode_type ctx_done nil = unless_done ctx_done bad_type

-- `tags[i] = t.(string)`, which panics on anything else: `none`.
unfoldable pub all_strings : Tuple → Option (List Str)
all_strings [] = some []
all_strings (text s ∷ t) =
    let rest = all_strings t in elim rest [ none ↦ none | some tags ↦ some (s ∷ tags) ]
all_strings (bytes b ∷ t) = none
all_strings (int n ∷ t) = none
all_strings (stamp s ∷ t) = none

-- The inner `none` is the panic.
unfoldable pub decode_tags : Bool → Field → Result (Option (List Str))
unfolding all_strings
decode_tags ctx_done nil = ok (some [])
decode_tags ctx_done (nested t) = ok (all_strings t)
decode_tags ctx_done (plain e) = unless_done ctx_done bad_tags

-- eventTuple[2].([]byte)
unfoldable pub decode_data : Bool → Field → Result (List ℕ)
decode_data ctx_done (plain (bytes b)) = ok b
decode_data ctx_done (plain (text s)) = unless_done ctx_done bad_data
decode_data ctx_done (plain (int n)) = unless_done ctx_done bad_data
decode_data ctx_done (plain (stamp s)) = unless_done ctx_done bad_data
decode_data ctx_done (nested t) = unless_done ctx_done bad_data
decode_data ctx_done nil = unless_done ctx_done bad_data

-- The event of a value's fields; `none` is a panic.
unfoldable pub decode_fields : Bool → List Field → Result (Option Event)
unfolding decode_type decode_tags decode_data
decode_fields ctx_done [] = unless_done ctx_done bad_tuple
decode_fields ctx_done (a ∷ []) = unless_done ctx_done bad_tuple
decode_fields ctx_done (a ∷ b ∷ []) = unless_done ctx_done bad_tuple
decode_fields ctx_done (a ∷ b ∷ c ∷ []) = decode_type ctx_done a >>= λ event_type.
    decode_tags ctx_done b >>= λ tags. elim tags [
      | none ↦ ok none
      | some ts ↦ decode_data ctx_done c >>= λ payload.
          ok (some (record { event_type = event_type; tags = ts; payload = payload }))
    ]
decode_fields ctx_done (a ∷ b ∷ c ∷ d ∷ r) = unless_done ctx_done bad_tuple

module _ (D : Database) where
  open D use {Db, get, unpack}

  unfoldable pub decode_event : Bool → List ℕ → Result (Option Event)
  unfolding decode_fields
  decode_event ctx_done encoded = elim (unpack encoded) [
    | none ↦ unless_done ctx_done bad_tuple
    | some fields ↦ decode_fields ctx_done fields
  ]

  -- fmt.Errorf("…%s", err) around every error of decodeEvent
  abbrev pub wrapped {ℓ} : {A : Type ℓ} → Result A → Result A
  wrapped (ok a) = ok a
  wrapped (err e) = err (formatted e)

  unfoldable pub fetch_event : FdbStore → Db → Bool → Versionstamp → Result (Option StoredEvent)
  unfolding decode_event
  fetch_event s d ctx_done vs = elim (get d (s.events ++ stamp (to_stamp vs) ∷ [])) [
    | none ↦ unless_done ctx_done no_data
    | some encoded ↦ wrapped (decode_event ctx_done encoded) >>= λ decoded. elim decoded [
      | none ↦ ok none
      | some event ↦ ok (some (record { event = event; position = vs }))
    ]
  ]
