-- ===== src/Command/Store.antt =====
-- The event store of dcb as the store of the commands: `Read` and `Append` behind the interface DcbStore.
use mathlib.Core.List.{append-nil, append_assoc}
use fairway.Base.{
  ℕ, zero, suc, ◌+◌, ◌≡◌, refl, sym, ap, ◌∙◌, Bool, true, false, List, [], ◌∷◌, ◌++◌, map, Option,
  arith, In, All, take,
}
use fairway.Fdb.{Str, Database}
use fairway.Dcb.Types.{Query, ReadOptions, StoredEvent, Result, ok, ◌>>=◌, Context}
use fairway.Dcb.Index.{new_store}
use fairway.Dcb.Append.{append}
use fairway.Dcb.Log.{Represents, IsIndexable, IsAscending}
use fairway.Dcb.Log.Items.{IsProper}
use fairway.Dcb.Read.{Heap, Ending, limit_reached}
use fairway.Dcb.Read.Queue.{IsQueue}
use fairway.Dcb.Read.Deliver.{deliver}
use fairway.Dcb.Read.Refinement.{selected}
use fairway.Dcb.ReadAll.{with_event, options_or_default, read}
use fairway.Dcb.ReadAll.Refinement.{read-Refines}
use fairway.Command.{DcbStore}
use fairway.Command.Reads.{up_to, log_read}

-- A consumer that keeps all.
abbrev pub collect :
    List (Result StoredEvent) → Result StoredEvent → List (Result StoredEvent) × Bool
collect rows row = (rows ++ row ∷ [], true)

abbrev pub never_done : Context
never_done k = false

-- The database with the next transaction version.
abbrev pub fdb_store : (D : Database) → Str → Heap → DcbStore
fdb_store D namespace heap = record {
  S = D.Db × ℕ;
  read = λ s query opts.
      (read D (new_store namespace) heap collect s.0 false never_done false query opts []).0;
  append = λ s events conditions.
      append D (new_store namespace) s.0 never_done s.1 events conditions >>= λ d. ok (d, suc s.1);
}

deliver-unlimited :
    (count : ℕ) (rows : List (Result StoredEvent)) (es : List StoredEvent)
    → (deliver (with_event collect) 0 count rows es).0 ≡ rows ++ map ok es
unfolding deliver limit_reached
deliver-unlimited count rows [] = sym (append-nil rows)
deliver-unlimited count rows (e ∷ es) =
    deliver-unlimited (suc count) (rows ++ ok e ∷ []) es ∙ append_assoc rows (ok e ∷ []) (map ok es)

reached_at : (count : ℕ) → limit_reached (count + 1) (suc count) ≡ true
unfolding limit_reached
reached_at count = ground arith

not_reached_at : (count k : ℕ) → limit_reached (count + suc (suc k)) (suc count) ≡ false
unfolding limit_reached
not_reached_at count k = ground arith

deliver-limited :
    (k count limit : ℕ) (rows : List (Result StoredEvent)) (es : List StoredEvent)
    → limit ≡ count + suc k
    → (deliver (with_event collect) limit count rows es).0 ≡ rows ++ map ok (take (suc k) es)
unfolding deliver
deliver-limited k count limit rows [] is = sym (append-nil rows)
deliver-limited zero count limit rows (e ∷ es) is = rw (is, deliver, reached_at count) refl
deliver-limited (suc k) count limit rows (e ∷ es) is =
    let below : limit_reached limit (suc count) ≡ false = rw is (not_reached_at count k) in
    rw (deliver, below)
      (deliver-limited k (suc count) limit (rows ++ ok e ∷ []) es (omega (arith, is))
        ∙ append_assoc rows (ok e ∷ []) (map ok (take (suc k) es)))

deliver-collects :
    (limit : ℕ) (es : List StoredEvent)
    → (deliver (with_event collect) limit 0 [] es).0 ≡ map ok (up_to limit es)
deliver-collects zero es = deliver-unlimited 0 [] es
deliver-collects (suc k) es = deliver-limited k 0 (suc k) [] es (omega arith)

-- On a database that holds a log of indexable events at ascending positions, a read of proper items
-- through the interface is the read of the log.
pub fdb_store-log_read :
    (D : Database) (namespace : Str) (heap : Heap) (d : D.Db) (tx : ℕ) (log : List StoredEvent)
    (query : Query) (opts : Option ReadOptions)
    → Represents D namespace d log
    → IsAscending log
    → ((e : StoredEvent) → In e log → IsIndexable e)
    → All IsProper query.items
    → IsQueue heap
    → (fdb_store D namespace heap).read (d, tx) query opts ≡ log_read log query opts
fdb_store-log_read D namespace heap d tx log query opts rep ascending indexable proper queue =
    ap (λ (r : List (Result StoredEvent) × Ending). r.0)
      (read-Refines D namespace heap collect d log never_done false query opts [] rep ascending
        indexable proper queue (λ k. refl))
    ∙ deliver-collects (options_or_default opts).limit
        (selected log query (options_or_default opts))
