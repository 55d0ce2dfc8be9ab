-- ===== src/Dcb/Read/Merge.antt =====
-- The merge of a read comes to an end.
use fairway.Base.{
  true, arith, ap, ℕ, zero, suc, ◌+◌, ◌<◌, ◌≡◌, ◌≢◌, refl, ◌⊎◌, Bool, inl, inr, Bool-cases,
  Option-cases, List, [], ◌∷◌, Option, none, some, arith, length,
}
use fairway.Fdb.{Database}
use fairway.Dcb.Types.{
  Result-cases, Versionstamp, Query, ReadOptions, StoredEvent, Result, ok, err, Context, Error,
}
use fairway.Dcb.Index.{FdbStore}
use fairway.Dcb.Read.{
  RangeIterator, Heap, spent, merge, advance, pushed, size, is_repeat, limit_reached, all_iterators,
  read_events,
}

-- What `Pop` leaves holds what was there but for the item that it returns.
abbrev pub TakesOne : Heap → Type 0
TakesOne heap =
    (reverse : Bool) (items : List RangeIterator) (i : RangeIterator) (rest : List RangeIterator)
    → heap.pop reverse items ≡ some (i, rest)
    → size items ≡ size (i ∷ rest)

pub size-pushed :
    (vs : List Versionstamp) (items : List RangeIterator)
    → size (pushed (advance vs) items) ≡ length vs + size items
unfolding size pushed advance
size-pushed [] items = omega arith
size-pushed (v ∷ vs) items = omega arith

pub size-popped :
    (i : RangeIterator) (rest : List RangeIterator)
    → size (i ∷ rest) ≡ suc (length i.upcoming + size rest)
unfolding size
size-popped i rest = omega arith

pub is_repeat-some :
    (last : Option Versionstamp) (v : Versionstamp) → is_repeat last v ≡ true → last ≡ some v
unfolding is_repeat
is_repeat-some none v h = cc
is_repeat-some (some q) v h = ap some (ground (arith, h))

pub Fetched-cases :
    (r : Result (Option StoredEvent))
    → ((e : Error) × (r ≡ err e)) ⊎ ((r ≡ ok none) ⊎ ((s : StoredEvent) × (r ≡ ok (some s))))
Fetched-cases (err e) = inl (e, refl)
Fetched-cases (ok none) = inr (inl refl)
Fetched-cases (ok (some s)) = inr (inr (s, refl))

merge_ends :
    (heap : Heap) {Y : Type 0} (yield : Y → StoredEvent → Y × Bool)
    (fetch : Versionstamp → Result (Option StoredEvent)) (limit : ℕ) (reverse : Bool)
    (ctx : Context) (fuel : ℕ) (last : Option Versionstamp) (count : ℕ) (y : Y)
    (items : List RangeIterator)
    → TakesOne heap
    → size items < fuel
    → (merge heap yield fetch limit reverse ctx fuel last count y items).1 ≢ spent
unfolding merge
merge_ends heap yield fetch limit reverse ctx zero last count y items law enough =
    absurd (omega (arith, enough))
merge_ends heap yield fetch limit reverse ctx (suc fuel) last count y items law enough =
    elim (Option-cases (heap.pop reverse items)) [
      | inl empty ↦ rw (merge, empty) (λ q. cc)
      | inr (popped, e) ↦
          let smaller : size (pushed (advance popped.0.upcoming) popped.1) < fuel = omega (
            arith,
            enough,
            law reverse items popped.0 popped.1 e,
            size-popped popped.0 popped.1,
            size-pushed popped.0.upcoming popped.1,
          ) in
          elim (Bool-cases (ctx fuel)) [
            | inl stop ↦ rw (merge, e, stop) (λ q. cc)
            | inr go ↦ elim (Bool-cases (is_repeat last popped.0.current)) [
              | inl again ↦
                  rw (merge, e, go, again)
                    (merge_ends heap yield fetch limit reverse ctx fuel last count y _ law smaller)
              | inr new ↦ elim (Fetched-cases (fetch popped.0.current)) [
                | inl (failure, f) ↦ rw (merge, e, go, new, f) (λ q. cc)
                | inr (inl f) ↦ rw (merge, e, go, new, f) (λ q. cc)
                | inr (inr (event, f)) ↦ elim (Bool-cases ((yield y event).1)) [
                  | inr full ↦ rw (merge, e, go, new, f, full) (λ q. cc)
                  | inl more ↦ elim (Bool-cases (limit_reached limit (suc count))) [
                    | inl last_one ↦ rw (merge, e, go, new, f, more, last_one) (λ q. cc)
                    | inr open_end ↦
                        rw (merge, e, go, new, f, more, open_end)
                          (merge_ends heap yield fetch limit reverse ctx fuel
                            (some popped.0.current) (suc count) (yield y event).0 _ law smaller)
                  ]
                ]
              ]
            ]
          ]
    ]

-- A read comes to an end, with the count of its events, an error or a panic: the fuel of its merge is
-- enough, for a priority queue whose `Pop` takes one item out.
pub read_events_ends :
    (D : Database) (s : FdbStore) (heap : Heap) {Y : Type 0} (yield : Y → StoredEvent → Y × Bool)
    (d : D.Db) (ctx : Context) (ctx_done : Bool) (query : Query) (opts : ReadOptions) (y : Y)
    → TakesOne heap
    → (read_events D s heap yield d ctx ctx_done query opts y).1 ≢ spent
unfolding read_events
read_events_ends D s heap yield d ctx ctx_done query opts y law =
    elim (Result-cases (all_iterators D s d ctx_done opts.reverse query.items opts.after)) [
      | inl (items, e) ↦
          rw (read_events, e)
            (merge_ends heap yield _ opts.limit opts.reverse ctx (suc (size items)) none 0 y items
              law (omega arith))
      | inr (failure, e) ↦ rw (read_events, e) (λ q. cc)
    ]
