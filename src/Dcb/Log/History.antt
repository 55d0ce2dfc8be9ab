-- ===== src/Dcb/Log/History.antt =====
-- Histories: appends of any clients, in the order in which the database commits them.
use fairway.Base.{
  ℕ, suc, ◌+◌, ◌*◌, ◌≤◌, ◌<◌, ◌≡◌, refl, sym, subst, false, inl, inr, List, [], ◌∷◌, ◌++◌, none,
  arith, In, here, there, In-append, length, All,
}
use fairway.Fdb.{Str, Tuple, text, Database}
use fairway.Dcb.Types.{Event, AppendCondition, StoredEvent, Result, ok, err, Context, has}
use fairway.Dcb.Index.{new_store, events_in_tag_subspace}
use fairway.Dcb.Append.{append, stored_from}
use fairway.Dcb.Log.{Represents, IsIndexable}
use fairway.Dcb.Log.Refinement.{append_log, append-Refines, Refines, Holds, IsProperCondition}

pub record Call : Type 0 where
  pub ctx : Context
  pub tx : ℕ
  pub events : List Event
  pub conditions : List AppendCondition

-- A failed append leaves things as they were.
abbrev pub or_before {ℓ} : {A : Type ℓ} → A → Result A → A
or_before a (ok b) = b
or_before a (err e) = a

unfoldable pub serve_log : List StoredEvent → List Call → List StoredEvent
serve_log log [] = log
serve_log log (c ∷ cs) =
    serve_log (or_before log (append_log log c.ctx c.tx c.events c.conditions)) cs

-- Tags that the index can hold.
abbrev pub IsIndexableEvent : Event → Type 0
IsIndexableEvent e = (has e.tags events_in_tag_subspace ≡ false) × (length e.tags < 63)

pub record IsProperCall (c : Call) : Type 0 where
  pub conditions : All IsProperCondition c.conditions
  pub events : All IsIndexableEvent c.events
  pub room : length c.events ≤ 65536

-- The database hands out transaction versions from `n` on, each above the last.
abbrev pub IsHistory : ℕ → List Call → Type 0
IsHistory n [] = Unit
IsHistory n (c ∷ cs) = (n ≤ c.tx) × IsProperCall c × IsHistory (suc c.tx) cs

stored_from-In :
    (tx i : ℕ) (es : List Event) (e : StoredEvent)
    → All IsIndexableEvent es
    → i + length es ≤ 65536
    → In e (stored_from tx i es)
    → IsIndexable e × (e.position < (tx + 1) * 65536)
stored_from-In tx i [] e p room j = elim j [ ]
stored_from-In tx i (x ∷ es) e p room (here h) = rw h (p.0, omega arith)
stored_from-In tx i (x ∷ es) e p room (there j) = stored_from-In tx (suc i) es e p.1 (omega arith) j

pub append_log-ok :
    (log : List StoredEvent) (c : Call) (l : List StoredEvent)
    → append_log log c.ctx c.tx c.events c.conditions ≡ ok l
    → l ≡ log ++ stored_from c.tx 0 c.events
append_log-ok log c l h = ground arith

module _ (D : Database) (namespace : Str) where
  pub serve : D.Db → List Call → D.Db
  serve d [] = d
  serve d (c ∷ cs) =
      serve (or_before d (append D (new_store namespace) d c.ctx c.tx c.events c.conditions)) cs

  Holds-later :
      {n m : ℕ} {d : D.Db} {log : List StoredEvent}
      → n ≤ m
      → Holds D namespace n d log
      → Holds D namespace m d log
  Holds-later le h = record {
    represents = h.represents;
    indexable = h.indexable;
    below = λ a i. omega (arith, h.below a i);
  }

  Holds-extend :
      (c : Call) (d d' : D.Db) (log : List StoredEvent)
      → IsProperCall c
      → Holds D namespace c.tx d log
      → Represents D namespace d' (log ++ stored_from c.tx 0 c.events)
      → Holds D namespace (suc c.tx) d' (log ++ stored_from c.tx 0 c.events)
  Holds-extend c d d' log p h rep = record {
    represents = rep;
    indexable = λ e i. elim (In-append log _ i) [
      | inl old ↦ h.indexable e old
      | inr new ↦ (stored_from-In c.tx 0 c.events e p.events (omega (arith, p.room)) new).0
    ];
    below = λ e i. elim (In-append log _ i) [
      | inl old ↦ omega (arith, h.below e old)
      | inr new ↦
          omega (arith, (stored_from-In c.tx 0 c.events e p.events (omega (arith, p.room)) new).1)
    ];
  }

  -- One call keeps the database and the log together, whether it appends or fails.
  Holds-call :
      (c : Call) (d : D.Db) (log : List StoredEvent)
      → IsProperCall c
      → Holds D namespace c.tx d log
      → Holds D namespace
          (suc c.tx)
          (or_before d (append D (new_store namespace) d c.ctx c.tx c.events c.conditions))
          (or_before log (append_log log c.ctx c.tx c.events c.conditions))
  Holds-call c d log p h =
      at _ _
        (append-Refines D namespace c.tx d log c.ctx c.events c.conditions h p.conditions p.room)
        (append_log-ok log c)
    where
      at :
          (r : Result D.Db) (s : Result (List StoredEvent))
          → Refines D namespace r s
          → ((l : List StoredEvent) → s ≡ ok l → l ≡ log ++ stored_from c.tx 0 c.events)
          → Holds D namespace (suc c.tx) (or_before d r) (or_before log s)
      at (ok d') (ok l) rep grown =
          let e = grown l refl in
          subst (λ m. Holds D namespace (suc c.tx) d' m) (sym e)
            (Holds-extend c d d' log p h (subst (λ m. Represents D namespace d' m) e rep))
      at (err e) (err e') same grown = Holds-later (omega arith) h
      at (ok d') (err e) no_way grown = absurd no_way
      at (err e) (ok l) no_way grown = absurd no_way

  pub history-Holds :
      (n : ℕ) (calls : List Call) (d : D.Db) (log : List StoredEvent)
      → IsHistory n calls
      → Holds D namespace n d log
      → (m : ℕ) × Holds D namespace m (serve d calls) (serve_log log calls)
  unfolding serve serve_log
  history-Holds n [] d log hist h = (n, h)
  history-Holds n (c ∷ cs) d log hist h =
      history-Holds (suc c.tx) cs _ _ hist.2 (Holds-call c d log hist.1 (Holds-later hist.0 h))

  -- A namespace that is empty holds the empty log.
  pub empty-Holds :
      (d : D.Db) → ((k : Tuple) → D.get d (text namespace ∷ k) ≡ none) → Holds D namespace 0 d []
  empty-Holds d h = record {
    represents = record { sound = λ k v g. cc (h k); complete = λ e k v i w. elim i [ ] };
    indexable = λ e i. elim i [ ];
    below = λ e i. elim i [ ];
  }

  -- From an empty namespace, after appends at increasing transaction versions, conditional or not,
  -- failing or not, with proper condition items, fewer than 63 tags an event, none of them `_e`, and
  -- 65536 events at most a batch, the database holds exactly the log that the same appends make of the
  -- empty log: each key of the namespace is one of an event of the log, and each event has all its keys.
  pub history-Represents :
      (calls : List Call) (d : D.Db)
      → ((k : Tuple) → D.get d (text namespace ∷ k) ≡ none)
      → IsHistory 0 calls
      → Represents D namespace (serve d calls) (serve_log [] calls)
  history-Represents calls d fresh hist =
      (history-Holds 0 calls d [] hist (empty-Holds d fresh)).1.represents
