-- ===== src/Idempotency.antt =====
-- utils/http.go: the idempotency middleware, for the requests with one key. The wrapped handler is not
-- modelled: a request that runs it comes to a response.
pub mod Steps
use fairway.Base.{
  ℕ, suc, ◌+◌, ◌/◌, ◌%◌, ◌^◌, ◌<◌, ◌≡◌, refl, ap, ◌∙◌, Bool, true, false, List, [], ◌∷◌, ◌++◌,
  Option, none, some, arith, if◌then◌else◌, ltb, length, take, drop, codes,
}
use fairway.Base.Bytes.{be_bytes, of_be, of_be-be_bytes}
use fairway.Base.Order.{ℕ_ord, list_ord, same}
use fairway.Fdb.{Str, Tuple, Element, text, Database}

abbrev pub idempotency_processing_marker : List ℕ
idempotency_processing_marker = codes "__processing__"

pub record Response : Type 0 where
  pub status_code : ℕ
  pub body : List ℕ

-- ss.Pack(tuple.Tuple{key}) in subspace.Sub(namespace).Sub("idempotency")
abbrev pub key_of : Str → Str → Tuple
key_of namespace key = text namespace ∷ text (codes "idempotency") ∷ text key ∷ []

unfoldable pub is_processing : List ℕ → Bool
is_processing val = same val idempotency_processing_marker

unfoldable pub encode_response : Response → List ℕ
encode_response r = be_bytes 4 r.status_code ++ r.body

unfoldable pub decode_response : List ℕ → Response
decode_response data_read =
    if ltb (length data_read) 4
    then record { status_code = 500; body = [] }
    else record { status_code = of_be (take 4 data_read); body = drop 4 data_read }

module _ (D : Database) where
  open D use {Db, get, set}

  -- claimResult, with the database after the transaction
  pub record ClaimResult : Type 0 where
    pub db : Db
    pub claimed : Bool
    pub existing : Option (List ℕ)

  unfoldable pub try_claim : Db → Tuple → ClaimResult
  try_claim d key = elim (get d key) [
    | some val ↦ record { db = d; claimed = false; existing = some val }
    | none ↦ record {
      db = set d key idempotency_processing_marker;
      claimed = true;
      existing = none;
    }
  ]

  unfoldable pub store_result : Db → Tuple → List ℕ → Db
  store_result d key encoded = set d key encoded

  -- One poll of waitForResult: the value, once it is there and is not the marker.
  unfoldable pub poll_result : Db → Tuple → Option (List ℕ)
  unfolding is_processing
  poll_result d key = elim (get d key) [
    | none ↦ none
    | some val ↦ if is_processing val then none else some val
  ]

  -- waitForResult: the database at each poll, and whether the deadline has passed after it. `none` is
  -- the timeout, also where the list ends before the deadline.
  unfoldable pub wait_for_result : Tuple → List (Db × Bool) → Option (List ℕ)
  unfolding poll_result
  wait_for_result key [] = none
  wait_for_result key ((d, passed) ∷ polls) =
      let rest = wait_for_result key polls in
      elim (poll_result d key) [ some val ↦ some val | none ↦ if passed then none else rest ]

decoded :
    (r : Response)
    → decode_response (encode_response r)
      ≡ record { status_code = of_be (be_bytes 4 r.status_code); body = r.body }
unfolding decode_response encode_response be_bytes
decoded r =
    let four : ltb (suc (suc (suc (suc (length r.body))))) 4 ≡ false = ground arith in rw four refl

-- A response is read back from its value, if its status code fits 32 bits.
pub decode_response-encode_response :
    (r : Response) → r.status_code < 2 ^ 32 → decode_response (encode_response r) ≡ r
decode_response-encode_response r h =
    decoded r
    ∙ ap (λ c. (record { status_code = c; body = r.body })) (of_be-be_bytes 4 r.status_code h)

-- The value of a response with a status code below 2^24 is not the marker.
pub is_processing-encode_response :
    (r : Response) → r.status_code < 2 ^ 24 → is_processing (encode_response r) ≡ false
unfolding is_processing encode_response be_bytes
is_processing-encode_response r h =
    let zero_byte : r.status_code / 256 / 256 / 256 % 256 ≡ 0 = omega (arith, h) in
    rw zero_byte refl
