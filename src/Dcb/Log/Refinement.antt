-- ===== src/Dcb/Log/Refinement.antt =====
-- The store refines a log of events: `Append` against its specification on the log.
use fairway.Base.{
  ℕ, ◌*◌, ◌≤◌, ◌≡◌, refl, Bool, true, false, List, [], ◌∷◌, ◌++◌, arith, In, any, length,
  if◌then◌else◌, All,
}
use fairway.Fdb.{Str, Database}
use fairway.Dcb.Types.{
  Event, AppendCondition, StoredEvent, Result, ok, err, ◌>>=◌, Context, is_empty, empty_events,
  context_done, append_condition_failed,
}
use fairway.Dcb.Index.{new_store}
use fairway.Dcb.Append.{check_conditions, validate, append, append_each, stored_from}
use fairway.Dcb.Log.{Represents, selects_any, IsIndexable}
use fairway.Dcb.Log.Items.{IsProper}
use fairway.Dcb.Log.Queries.{query_exists_exact}
use fairway.Dcb.Log.Writes.{AllBelow, append_each-Represents}

-- A condition fails on a log that holds an event of its query after its position.
abbrev pub violates : List StoredEvent → AppendCondition → Bool
violates log c = any (selects_any c.query.items c.after) log

-- What `Append` means on the log.
abbrev pub append_log :
    List StoredEvent → Context → ℕ → List Event → List AppendCondition → Result (List StoredEvent)
append_log log ctx tx events conditions =
    if ctx 0
    then err context_done
    else if is_empty events
    then err empty_events
    else validate events >>= λ _.
        if ctx 1
        then err context_done
        else if any (violates log) conditions
        then err append_condition_failed
        else ok (log ++ stored_from tx 0 events)

-- Two outcomes agree: the same error, or a database that holds the log.
abbrev pub Refines : (D : Database) → Str → Result D.Db → Result (List StoredEvent) → Type 0
Refines D namespace (ok d) (ok log) = Represents D namespace d log
Refines D namespace (err e) (err e') = e ≡ e'
Refines D namespace (ok d) (err e) = ⊥
Refines D namespace (err e) (ok log) = ⊥

abbrev pub IsProperCondition : AppendCondition → Type 0
IsProperCondition c = All IsProper c.query.items

module _ (D : Database) (namespace : Str) where
  -- A database, the log it holds, and what the log keeps to.
  pub record Holds (tx : ℕ) (d : D.Db) (log : List StoredEvent) : Type 0 where
    pub represents : Represents D namespace d log
    pub indexable : (e : StoredEvent) → In e log → IsIndexable e
    pub below : AllBelow D namespace (tx * 65536) log

  pub check_conditions_exact :
      (tx : ℕ) (d : D.Db) (log : List StoredEvent) (conditions : List AppendCondition)
      → Holds tx d log
      → All IsProperCondition conditions
      → check_conditions D (new_store namespace) d conditions
        ≡ (if any (violates log) conditions then err append_condition_failed else ok tt)
  unfolding check_conditions
  check_conditions_exact tx d log [] h p = refl
  check_conditions_exact tx d log (c ∷ cs) h p =
      rw
        (
          query_exists_exact D namespace d log h.represents h.indexable c.after c.query.items p.0,
          ◌>>=◌,
          check_conditions_exact tx d log cs h p.1,
        )
        (ground arith)

  -- If the database holds a log whose events were stored before transaction `tx` and have fewer than 63
  -- tags each, none of them `_e`, each item of each
  -- condition is proper (a type or a tag, no tag twice) and the batch has 65536 events at most, then
  -- `append` fails with the error that the append on the log fails with, or makes a database that holds
  -- the log with the events appended at the positions of `tx`.
  pub append-Refines :
      (tx : ℕ) (d : D.Db) (log : List StoredEvent) (ctx : Context) (events : List Event)
      (conditions : List AppendCondition)
      → Holds tx d log
      → All IsProperCondition conditions
      → length events ≤ 65536
      → Refines D namespace
          (append D (new_store namespace) d ctx tx events conditions)
          (append_log log ctx tx events conditions)
  unfolding append
  append-Refines tx d log ctx events conditions h p room =
      rw (check_conditions_exact tx d log conditions h p)
        (at (ctx 0) (is_empty events) (validate events) (ctx 1) (any (violates log) conditions))
    where
      step :
          Represents D namespace
            (append_each D (new_store namespace) tx 0 events d)
            (log ++ stored_from tx 0 events)
      step =
          append_each-Represents D namespace tx 0 events d log (omega arith)
            (λ a i. omega (arith, h.below a i)) h.represents

      at :
          (a b : Bool) (v : Result (Unit {0})) (c e : Bool)
          → Refines D namespace
              (if a
                then err context_done
                else if b
                then err empty_events
                else ◌>>=◌ {0, 0} v λ _.
                  if c
                  then err context_done
                  else ◌>>=◌ {0, 0}
                      (if e then err append_condition_failed else ok tt)
                      λ _. ok (append_each D (new_store namespace) tx 0 events d))
              (if a
                then err context_done
                else if b
                then err empty_events
                else ◌>>=◌ {0, 0} v λ _.
                  if c
                  then err context_done
                  else if e
                  then err append_condition_failed
                  else ok (log ++ stored_from tx 0 events))
      at true b v c e = refl
      at false true v c e = refl
      at false false (err x) c e = refl
      at false false (ok u) true e = refl
      at false false (ok u) false true = refl
      at false false (ok u) false false = step
