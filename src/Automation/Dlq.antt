-- ===== src/Automation/Dlq.antt =====
-- automation_dlq.go: the dead letter queue.
pub mod Codec
pub mod Entries
pub mod Replay
use fairway.Base.{
  ℕ, suc, ◌+◌, ◌%◌, Bool, true, false, List, [], ◌∷◌, ◌++◌, Option, none, some, if◌then◌else◌, ltb,
  length, take, drop,
}
use fairway.Base.Bytes.{be_bytes, of_be}
use fairway.Fdb.{Str, Tuple, text, bytes, int, stamp, Database, KeyRange, Key, packed}
use fairway.Dcb.Types.{to_stamp}
use fairway.Automation.Types.{
  Int64, Automation, Job, DlqEntry, Outcome, done, failed, panicked, ◌>>=◌, invalid_dlq_size,
  error_truncated, dlq_entry_not_found, unpack_in,
}
use fairway.Automation.Jobs.{enqueue_in_tx}

-- errStr[:65535] if it is longer; `none` is a nil error, with the text "".
unfoldable pub error_text : Option Str → Str
error_text none = []
error_text (some s) = if ltb 65535 (length s) then take 65535 s else s

unfoldable pub encode_dlq : Job → Option Str → List ℕ
unfolding error_text
encode_dlq j e =
    be_bytes 12 j.event_vs
    ++ (be_bytes 1 j.attempts ++ (be_bytes 2 (length (error_text e)) ++ error_text e))

-- keyTuple[0].(int64), if there is one
unfoldable pub enqueued_at : Tuple → Option Int64
enqueued_at [] = none
enqueued_at (int ts ∷ t) = some ts
enqueued_at (text s ∷ t) = none
enqueued_at (bytes b ∷ t) = none
enqueued_at (stamp s ∷ t) = none

-- value[15 : 15+errLen]: the sum is a uint16, and a slice that ends before it starts is a panic.
unfoldable pub error_slice : List ℕ → ℕ → Outcome Str
error_slice value error_len =
    let end : ℕ = (15 + error_len) % 65536 in
    if ltb end 15 then panicked else done (take error_len (drop 15 value))

unfoldable pub decode_dlq : Tuple → Tuple → List ℕ → Outcome DlqEntry
unfolding error_slice enqueued_at
decode_dlq dlq_dir key value =
    let error_len : ℕ = of_be (take 2 (drop 13 value)) in
    if ltb (length value) 15
    then failed invalid_dlq_size
    else if ltb (length value) (15 + error_len)
    then failed error_truncated
    else error_slice value error_len >>= λ error. unpack_in dlq_dir key >>= λ key_tuple.
        done (record {
          key = key;
          enqueued_at = enqueued_at key_tuple;
          event_vs = of_be (take 12 value);
          attempts = of_be (take 1 (drop 12 value));
          error = error;
        })

module _ (D : Database) (a : Automation) where
  open D use {Db, get, set, clear, clear_range, scan, range_keys}

  abbrev pub dlq_key : Int64 → Job → Tuple
  dlq_key ts j = a.dlq_dir ++ int ts ∷ stamp (to_stamp j.event_vs) ∷ []

  -- `ts` is time.Now().UnixNano().
  unfoldable pub move_to_dlq_in_tx : Db → Int64 → Job → Option Str → Db
  unfolding encode_dlq
  move_to_dlq_in_tx d ts j e = clear (set d (dlq_key ts j) (encode_dlq j e)) j.key

  -- The loop of ListDLQ: `yield` is a callback with a state, which says whether it wants more. A panic
  -- of `decode_dlq` ends the loop and the program.
  unfoldable pub yield_entries :
      {S : Type 0} → (S → Outcome DlqEntry → S × Bool) → S → List (Tuple × List ℕ) → Outcome S
  unfolding decode_dlq
  yield_entries yield s [] = done s
  yield_entries yield s ((key, value) ∷ rows) =
      let entry : Outcome DlqEntry = decode_dlq a.dlq_dir key value in
      let rest = yield_entries yield (yield s entry).0 rows in
      elim entry [
        | panicked ↦ panicked
        | failed e ↦ if (yield s (failed e)).1 then rest else done (yield s (failed e)).0
        | done x ↦ if (yield s (done x)).1 then rest else done (yield s (done x)).0
      ]

  unfoldable pub list_dlq : {S : Type 0} → (S → Outcome DlqEntry → S × Bool) → S → Db → Outcome S
  unfolding yield_entries
  list_dlq yield s d = yield_entries yield s (scan d (range_keys a.dlq_dir))

  unfoldable pub replay_dlq : Db → Option (List ℕ) → Tuple → Outcome Db
  unfolding decode_dlq enqueue_in_tx
  replay_dlq d rand20 key = elim (get d key) [
    | none ↦ failed dlq_entry_not_found
    | some value ↦ decode_dlq a.dlq_dir key value >>= λ entry.
        enqueue_in_tx D a d rand20 entry.event_vs >>= λ d'. done (clear d' key)
  ]

  unfoldable pub purge_dlq : Db → Int64 → Db
  purge_dlq d before = clear_range d (record {
    begin = packed (a.dlq_dir ++ int 0 ∷ []);
    end = packed (a.dlq_dir ++ int before ∷ []);
  })
