-- ===== src/Dcb/Log/Writes.antt =====
-- `append_single` and the loop over the events of a batch extend the log that the database holds.
use fairway.Base.{
  ℕ, suc, ◌+◌, ◌*◌, ◌%◌, ◌≤◌, ◌<◌, ◌≡◌, ◌≢◌, refl, ap, subst, true, false, ◌⊎◌, inl, inr, List, [],
  ◌∷◌, ◌++◌, map, some, arith, In, here, there, In-append, In-append_left, In-append_right,
  Bool-cases, length,
}
use mathlib.Core.List.{append-nil, append_assoc}
use fairway.Base.Order.{list_ord, same, same_iff, same_self}
use fairway.Fdb.{Str, Tuple, Stamp, text, element_ord, Database}
use fairway.Dcb.Types.{to_stamp, of_stamp, Event, StoredEvent}
use fairway.Dcb.Subsets.{generate_all_subsets}
use fairway.Dcb.Index.{FdbStore, new_store}
use fairway.Dcb.Append.{tag_key, write_tag_keys, append_single, append_each, stored_from}
use fairway.Dcb.Log.{writes, Represents}
use fairway.Dcb.Log.Keys.{writes-position, writes-value}

module _ (D : Database) where
  open D use {Db, get, set, get-set}

  apply_writes : Db → List (Tuple × List ℕ) → Db
  apply_writes d [] = d
  apply_writes d ((k, v) ∷ ws) = apply_writes (set d k v) ws

  get-apply_writes :
      (d : Db) (ws : List (Tuple × List ℕ)) (k : Tuple) (v : List ℕ)
      → get (apply_writes d ws) k ≡ some v
      → In (k, v) ws ⊎ (get d k ≡ some v)
  unfolding apply_writes
  get-apply_writes d [] k v h = inr h
  get-apply_writes d ((j, w) ∷ ws) k v h = elim (get-apply_writes (set d j w) ws k v h) [
    | inl i ↦ inl (there i)
    | inr g ↦ elim (Bool-cases (same j k)) [
      | inl e ↦
          let jk : j ≡ k = (same_iff j k).0 e in
          let wv : w ≡ v = ground (arith, get-set d j k w) in inl (here (cc (jk, wv)))
      | inr e ↦ inr (ground (arith, get-set d j k w))
    ]
  ]

  -- What stands in the list, or stood in the database, stays if no write gives the key another value.
  apply_writes-get :
      (d : Db) (ws : List (Tuple × List ℕ)) (k : Tuple) (v : List ℕ)
      → ((w : List ℕ) → In (k, w) ws → w ≡ v)
      → In (k, v) ws ⊎ (get d k ≡ some v)
      → get (apply_writes d ws) k ≡ some v
  unfolding apply_writes
  apply_writes-get d [] k v one (inl i) = elim i [ ]
  apply_writes-get d [] k v one (inr g) = g
  apply_writes-get d ((j, w) ∷ ws) k v one old =
      apply_writes-get (set d j w) ws k v (λ u i. one u (there i)) (at (Bool-cases (same j k)) old)
    where
      at :
          (same j k ≡ true) ⊎ (same j k ≡ false)
          → In (k, v) ((j, w) ∷ ws) ⊎ (get d k ≡ some v)
          → In (k, v) ws ⊎ (get (set d j w) k ≡ some v)
      at (inl e) o =
          let wv : w ≡ v = one w (here (cc ((same_iff j k).0 e))) in
          inr (ground (arith, get-set d j k w))
      at (inr e) (inl (here h)) =
          let kj : k ≡ j = ap (λ (p : Tuple × List ℕ). p.0) h in
          cc (e, subst (λ x. same x k ≡ true) kj (same_self k))
      at (inr e) (inl (there i)) = inl i
      at (inr e) (inr g) = inr (ground (arith, get-set d j k w))

module _ (D : Database) (namespace : Str) where
  open D use {Db, get, set}

  abbrev store : FdbStore
  store = new_store namespace

  write_tag_keys-apply_writes :
      (event_type : Str) (vs : Stamp) (subsets : List (List Str)) (d : Db)
      → write_tag_keys D store event_type vs subsets d
        ≡ apply_writes D d (map (λ subset. (tag_key D store subset event_type vs, [])) subsets)
  unfolding write_tag_keys apply_writes
  write_tag_keys-apply_writes event_type vs [] d = refl
  write_tag_keys-apply_writes event_type vs (subset ∷ subsets) d =
      write_tag_keys-apply_writes event_type vs subsets _

  append_single-apply_writes :
      (d : Db) (e : StoredEvent)
      → append_single D store d e.event (to_stamp e.position)
        ≡ apply_writes D d (writes D namespace e)
  unfolding append_single apply_writes
  append_single-apply_writes d e =
      write_tag_keys-apply_writes e.event.event_type (to_stamp e.position)
        (generate_all_subsets e.event.tags) _

  pub append_single-Represents :
      (d : Db) (log : List StoredEvent) (e : StoredEvent)
      → ((a : StoredEvent) → In a log → a.position ≢ e.position)
      → Represents D namespace d log
      → Represents D namespace
          (append_single D store d e.event (to_stamp e.position))
          (log ++ e ∷ [])
  append_single-Represents d log e fresh rep = rw (append_single-apply_writes d e) (record {
    sound = λ k v h. elim (get-apply_writes D d (writes D namespace e) (text namespace ∷ k) v h) [
      | inl i ↦ (e, In-append_right log (e ∷ []) (here refl), i)
      | inr g ↦ let (a, i, w) = rep.sound k v g in (a, In-append_left log (e ∷ []) i, w)
    ];
    complete = λ a k v i w. elim (In-append log (e ∷ []) i) [
      | inl old ↦
          apply_writes-get D d (writes D namespace e) k v
            (λ u j. absurd (fresh a old (writes-position D namespace a e k v u w j)))
            (inr (rep.complete a k v old w))
      | inr new ↦ stored a k v new w
    ];
  })
    where
      stored :
          (a : StoredEvent) (k : Tuple) (v : List ℕ)
          → In a (e ∷ [])
          → In (k, v) (writes D namespace a)
          → get (apply_writes D d (writes D namespace e)) k ≡ some v
      stored a k v (here h) w =
          let w' : In (k, v) (writes D namespace e) =
            subst (λ (x : StoredEvent). In (k, v) (writes D namespace x)) h w in
          apply_writes-get D d (writes D namespace e) k v
            (λ u j. writes-value D namespace e k u v j w') (inl w')
      stored a k v (there i) w = elim i [ ]

  -- Every position of the log lies below a bound.
  abbrev pub AllBelow : ℕ → List StoredEvent → Type 0
  AllBelow n log = (a : StoredEvent) → In a log → a.position < n

  -- The loop over a batch: 65536 events at most have positions of their own.
  pub append_each-Represents :
      (tx i : ℕ) (es : List Event) (d : Db) (log : List StoredEvent)
      → i + length es ≤ 65536
      → AllBelow (tx * 65536 + i) log
      → Represents D namespace d log
      → Represents D namespace (append_each D store tx i es d) (log ++ stored_from tx i es)
  unfolding append_each
  append_each-Represents tx i [] d log room below rep = rw (append-nil log) rep
  append_each-Represents tx i (e ∷ es) d log room below rep =
      subst (Represents D namespace _) (append_assoc log (new ∷ []) (stored_from tx (suc i) es)) (
        append_each-Represents tx (suc i) es _ (log ++ new ∷ []) (omega arith) next (
          subst (λ s. Represents D namespace (append_single D store d e s) (log ++ new ∷ []))
            same_stamp
            (append_single-Represents d log new
              (λ a j h. absurd (omega (arith, below a j, h, here_position))) rep)))
    where
      new : StoredEvent
      new = record {
        event = e;
        position = of_stamp (record { transaction_version = tx; user_version = i % 65536 });
      }

      here_position : new.position ≡ tx * 65536 + i
      here_position = omega arith

      same_stamp :
          to_stamp new.position ≡ record { transaction_version = tx; user_version = i % 65536 }
      same_stamp = ground arith

      next : AllBelow (tx * 65536 + suc i) (log ++ new ∷ [])
      next a j = elim (In-append log (new ∷ []) j) [
        | inl old ↦ omega (arith, below a old)
        | inr one ↦ elim one [
          | here h ↦ omega (arith, here_position, ap (λ (x : StoredEvent). x.position) h)
          | there k ↦ elim k [ ]
        ]
      ]
