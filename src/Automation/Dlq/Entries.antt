-- ===== src/Automation/Dlq/Entries.antt =====
-- The entries of the dead letter queue: purging by age.
use fairway.Base.{◌≡◌, refl, true, ◌∷◌, ◌++◌, none, arith, ltb, leb, if◌then◌else◌}
use fairway.Fdb.{Tuple, int, Database}
use fairway.Automation.Types.{Int64, Automation}
use fairway.Automation.Dlq.{purge_dlq}

-- A purge removes the entries whose time is before the given one, whatever follows it in the key, and
-- keeps the value of every entry of that time or later.
pub get-purge_dlq :
    (D : Database) (a : Automation) (d : D.Db) (before ts : Int64) (rest : Tuple)
    → D.get (purge_dlq D a d before) (a.dlq_dir ++ int ts ∷ rest)
      ≡ (if ltb ts before then none else D.get d (a.dlq_dir ++ int ts ∷ rest))
unfolding purge_dlq
get-purge_dlq D a d before ts rest =
    let low : leb 0 ts ≡ true = ground arith in
    rw
      (
        D.get-clear_range d _ (a.dlq_dir ++ int ts ∷ rest),
        D.int_starts a.dlq_dir rest 0 ts,
        low,
        D.int_stops a.dlq_dir rest before ts,
      )
      refl
