-- ===== src/Tests/Idempotency.antt =====
-- Two requests with one idempotency key.
use fairway.Base.{◌≡◌, ◌≤◌, refl, [], ◌∷◌, some, arith, codes, In, true}
use fairway.Base.Bytes.{be_bytes}
use fairway.Fdb.{Tuple}
use fairway.Fdb.Memory.{memory, no_data, get-no_data, set_store, get_store}
use fairway.Idempotency.{
  Response, key_of, try_claim, store_result, encode_response, decode_response,
  decode_response-encode_response, is_processing-encode_response,
}
use fairway.Idempotency.Steps.{
  State, Reaches, initial, start, next, claims, completes, replays, executes_once, answered,
}

abbrev created : Response
created = record { status_code = 201; body = 79 ∷ 75 ∷ [] }

abbrev request_key : Tuple
request_key = key_of (codes "shop") (codes "k1")

abbrev before_requests : State memory request_key
before_requests = initial memory request_key no_data

claim_free : (try_claim memory no_data request_key).claimed ≡ true
unfolding try_claim memory no_data get_store
claim_free = refl

abbrev claimed_state : State memory request_key
claimed_state = record {
  db = (try_claim memory no_data request_key).db;
  executions = 1;
  running = 1;
  answers = [];
}

abbrev completed_state : State memory request_key
completed_state = record {
  db =
      store_result memory (try_claim memory no_data request_key).db request_key
        (encode_response created);
  executions = 1;
  running = 0;
  answers = created ∷ [];
}

abbrev replayed_state : State memory request_key
replayed_state =
    answered memory request_key completed_state (decode_response (encode_response created))

stored_response :
    (try_claim memory completed_state.db request_key).existing ≡ some (encode_response created)
unfolding try_claim memory no_data get_store set_store store_result encode_response be_bytes
stored_response = refl

two_requests : Reaches memory request_key before_requests replayed_state
two_requests =
    next (next (next start (claims claim_free)) (completes created refl (omega arith)))
      (replays stored_response (is_processing-encode_response created (omega arith)))

executes_once_example :
    (replayed_state.executions ≤ 1)
    × ((x y : Response) → In x replayed_state.answers → In y replayed_state.answers → x ≡ y)
executes_once_example =
    executes_once memory request_key no_data replayed_state (get-no_data request_key) two_requests

decode_response-encode_response_example : decode_response (encode_response created) ≡ created
decode_response-encode_response_example = decode_response-encode_response created (omega arith)
