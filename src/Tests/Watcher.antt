-- ===== src/Tests/Watcher.antt =====
-- A poll of the watcher on a type index with two events.
use fairway.Base.{ℕ, List, [], ◌∷◌, Option, some, codes}
use fairway.Base.Bytes.{be_bytes}
use fairway.Base.Order.{list_ord}
use fairway.Fdb.{element_ord, Tuple, text, stamp}
use fairway.Fdb.Memory.{memory, no_data}
use fairway.Automation.Jobs.{job_key, fresh_job, encode_job}
use fairway.Tests.Automation.{worker}

abbrev indexed : ℕ → Tuple
indexed n =
    text (codes "s")
    ∷ text (codes "t")
    ∷ text (codes "A")
    ∷ stamp (record { transaction_version = n; user_version = 0 })
    ∷ []

two_events : memory.Db
two_events = memory.set (memory.set no_data (indexed 1) []) (indexed 2) []

-- Twenty bytes in the program; two rows need two.
abbrev random : ℕ → Option (List ℕ)
random i = some (i ∷ [])

both_queued : memory.Db
both_queued =
    memory.set
      (memory.set
        (memory.set two_events (job_key memory (worker 1) 65536 (0 ∷ []))
          (encode_job (fresh_job (job_key memory (worker 1) 65536 (0 ∷ [])))))
        (job_key memory (worker 1) 131072 (1 ∷ []))
        (encode_job (fresh_job (job_key memory (worker 1) 131072 (1 ∷ [])))))
      (worker 1).cursor_key (be_bytes 12 131072)
