-- ===== src/Tests/Dlq.antt =====
-- Entries of the dead letter queue.
use fairway.Base.{ℕ, ◌≡◌, refl, [], ◌∷◌, none, some, arith, codes, length}
use fairway.Fdb.{Str, Tuple, text, int, stamp}
use fairway.Fdb.Memory.{memory}
use fairway.Automation.Types.{done, panicked, unpack_in}
use fairway.Automation.Dlq.{encode_dlq, decode_dlq, enqueued_at, move_to_dlq_in_tx, replay_dlq}
use fairway.Automation.Dlq.Codec.{decode_dlq-encode_dlq, decode_dlq_panics}
use fairway.Automation.Dlq.Replay.{replay_dlq-move_to_dlq_in_tx}
use fairway.Automation.Jobs.{job_key, encode_job, fresh_job}
use fairway.Tests.Automation.{worker, first_leased, stocked}

abbrev dead_key : Tuple
dead_key =
    text (codes "d") ∷ int 9 ∷ stamp (record { transaction_version = 1; user_version = 0 }) ∷ []

dead_key_unpacked :
    unpack_in (text (codes "d") ∷ []) dead_key
    ≡ done (int 9 ∷ stamp (record { transaction_version = 1; user_version = 0 }) ∷ [])
dead_key_unpacked = refl

decode_dlq-encode_dlq_example :
    decode_dlq (text (codes "d") ∷ []) dead_key (encode_dlq first_leased (some (codes "oops")))
    ≡ done (record {
      key = dead_key;
      enqueued_at = some 9;
      event_vs = 65536;
      attempts = 0;
      error = codes "oops";
    })
unfolding enqueued_at
decode_dlq-encode_dlq_example =
    decode_dlq-encode_dlq (text (codes "d") ∷ []) dead_key
      (int 9 ∷ stamp (record { transaction_version = 1; user_version = 0 }) ∷ []) first_leased
      (codes "oops") (omega arith) (omega arith) (omega arith) dead_key_unpacked

repeated : ℕ → Str
repeated ℕ.zero = []
repeated (ℕ.suc n) = 97 ∷ repeated n

length-repeated : (n : ℕ) → length (repeated n) ≡ n
unfolding repeated
length-repeated ℕ.zero = refl
length-repeated (ℕ.suc n) = omega (arith, length-repeated n)

decode_dlq_panics_example :
    decode_dlq (text (codes "d") ∷ []) dead_key (encode_dlq first_leased (some (repeated 65530)))
    ≡ panicked
decode_dlq_panics_example =
    decode_dlq_panics (text (codes "d") ∷ []) dead_key first_leased (repeated 65530)
      (omega (arith, length-repeated 65530)) (omega (arith, length-repeated 65530))

replay_dlq-move_to_dlq_in_tx_example :
    (d' : memory.Db) × (replay_dlq memory
        (worker 1)
        (move_to_dlq_in_tx memory (worker 1) stocked 9 first_leased (some (codes "oops")))
        (some (5 ∷ []))
        dead_key
      ≡ done d')
    × (memory.get d' dead_key ≡ none)
    × (memory.get d' (job_key memory (worker 1) 65536 (5 ∷ []))
        ≡ some (encode_job (fresh_job (job_key memory (worker 1) 65536 (5 ∷ [])))))
replay_dlq-move_to_dlq_in_tx_example =
    replay_dlq-move_to_dlq_in_tx memory (worker 1) stocked 9 first_leased (5 ∷ []) (codes "oops")
      (omega arith) (omega arith) (omega arith) refl refl
