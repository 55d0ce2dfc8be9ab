-- ===== src/Automation/Dlq/Replay.antt =====
-- A job that was moved to the dead letter queue and replayed is in the queue again.
use fairway.Base.{ℕ, ◌^◌, ◌≤◌, ◌<◌, ◌≡◌, refl, ◌∙◌, false, List, [], ◌∷◌, ◌++◌, none, some, length}
use fairway.Base.Order.{same, same_self, list_ord}
use fairway.Fdb.{element_ord, Str, Tuple, int, stamp, Database}
use fairway.Dcb.Types.{to_stamp}
use fairway.Automation.Types.{Int64, Automation, Job, done, unpack_in}
use fairway.Automation.Jobs.{job_key, fresh_job, encode_job, enqueue_in_tx}
use fairway.Automation.Dlq.{dlq_key, encode_dlq, move_to_dlq_in_tx, replay_dlq}
use fairway.Automation.Dlq.Codec.{decode_dlq-encode_dlq}

unpack_in-append : (p t : Tuple) → unpack_in p (p ++ t) ≡ done t
unpack_in-append [] t = refl
unpack_in-append (x ∷ p) t = rw (same_self x) (unpack_in-append p t)

module _ (D : Database) (a : Automation) (d : D.Db) (ts : Int64) (j : Job) (r : List ℕ)
    (s : Str) where
  abbrev dead : Tuple
  dead = dlq_key D a ts j

  abbrev fresh : Tuple
  fresh = job_key D a j.event_vs r

  abbrev moved : D.Db
  moved = move_to_dlq_in_tx D a d ts j (some s)

  get-moved : same j.key dead ≡ false → D.get moved dead ≡ some (encode_dlq j (some s))
  unfolding move_to_dlq_in_tx
  get-moved apart =
      D.get-clear (D.set d dead (encode_dlq j (some s))) j.key dead
      ∙ rw apart (D.get-set d dead dead (encode_dlq j (some s)) ∙ rw (same_self dead) refl)

  replay_moved :
      length s ≤ 65520
      → j.attempts < 256
      → j.event_vs < 2 ^ 96
      → same j.key dead ≡ false
      → replay_dlq D a moved (some r) dead
        ≡ done (D.clear (D.set moved fresh (encode_job (fresh_job fresh))) dead)
  unfolding replay_dlq enqueue_in_tx
  replay_moved short few fits apart =
      rw
        (
          replay_dlq,
          get-moved apart,
          decode_dlq-encode_dlq a.dlq_dir dead (int ts ∷ stamp (to_stamp j.event_vs) ∷ []) j s fits
              few short (unpack_in-append a.dlq_dir (int ts ∷ stamp (to_stamp j.event_vs) ∷ [])),
        )
        refl

  -- If a job is moved to the dead letter queue with an error text of at most 65520 bytes, its fields fit
  -- their bytes, and its entry has another key than it and than its new job, then a replay of the entry
  -- removes the entry and puts a new job for the job's event in the queue.
  pub replay_dlq-move_to_dlq_in_tx :
      length s ≤ 65520
      → j.attempts < 256
      → j.event_vs < 2 ^ 96
      → same j.key dead ≡ false
      → same dead fresh ≡ false
      → (d' : D.Db) × (replay_dlq D a moved (some r) dead ≡ done d')
        × (D.get d' dead ≡ none)
        × (D.get d' fresh ≡ some (encode_job (fresh_job fresh)))
  replay_dlq-move_to_dlq_in_tx short few fits apart other = (
    D.clear (D.set moved fresh (encode_job (fresh_job fresh))) dead,
    replay_moved short few fits apart,
    D.get-clear (D.set moved fresh (encode_job (fresh_job fresh))) dead dead
        ∙ rw (same_self dead) refl,
    D.get-clear (D.set moved fresh (encode_job (fresh_job fresh))) dead fresh
        ∙ rw other (
            D.get-set moved fresh fresh (encode_job (fresh_job fresh)) ∙ rw (same_self fresh) refl),
  )
