-- ===== src/Examples/Library/Serial.antt =====
-- BorrowBook is serializable: a loan that succeeds is decided as if the command had run alone.
use mathlib.Core.List.{append_assoc}
use fairway.Base.{
  ℕ, ◌≡◌, refl, sym, ap, subst, ◌∙◌, inl, inr, Bool, true, false, Bool-cases, List, [], ◌∷◌, ◌++◌,
  map, none, arith, any, length, leb, Pairwise-append_left,
}
use fairway.Fdb.{Str}
use fairway.Dcb.Types.{StoredEvent, Result, ok, err, Result-cases}
use fairway.Dcb.Log.{IsAscending}
use fairway.Dcb.Log.Refinement.{violates}
use fairway.Command.{DcbStore, ReadRecord, append_events, condition_of}
use fairway.Command.Conditions.{log_store}
use fairway.Command.Reads.{log_read}
use fairway.Command.Fresh.{plain, backward, read_events-record}
use fairway.Command.Grown.{no_conflict, read_events-grown}
use fairway.Examples.Library.{
  BookEvent, book_borrowed, book_returned, BorrowBook, borrowed, book_query, borrower_query, newest,
  track_books, note_newest, to_dcb_event, deserialize, newest_of_book, books_of_borrower, settle,
  run, max_books_per_borrower,
}

pub track_books_goes_on : (books : List Str) (e : BookEvent) → (track_books books e).1 ≡ true
unfolding track_books
track_books_goes_on books (book_borrowed b r) = refl
track_books_goes_on books (book_returned b r) = refl

borrowed_injective {ℓ} : {S : Type ℓ} {x y : S} → borrowed x ≡ borrowed y → x ≡ y
borrowed_injective h = cc

settled {ℓ} : {S : Type ℓ} (r : Result S) (s : S) → settle r ≡ borrowed s → r ≡ ok s
unfolding settle
settled (ok x) s h = ap ok (borrowed_injective h)
settled (err e) s h = cc h

module _ (marshal : BookEvent → Result (List ℕ)) (unmarshal : Str → List ℕ → Result BookEvent)
    (store : DcbStore) (ctx_done : Bool) (cmd : BorrowBook) where
  abbrev first_read : store.S → Bool × Result (List ReadRecord)
  first_read s = newest_of_book marshal unmarshal store ctx_done cmd s []

  abbrev second_read : store.S → List ReadRecord → List Str × Result (List ReadRecord)
  second_read s reads = books_of_borrower marshal unmarshal store ctx_done cmd s reads

  -- What a loan that succeeds has read.
  record Loan (s₁ s₂ s₃ s : store.S) : Type 0 where
    first : List ReadRecord
    both : List ReadRecord
    first_done : (first_read s₁).1 ≡ ok first
    free : (first_read s₁).0 ≡ false
    second_done : (second_read s₂ first).1 ≡ ok both
    below : leb max_books_per_borrower (length (second_read s₂ first).0) ≡ false
    appended :
        append_events
          (to_dcb_event marshal)
          store
          s₃
          both
          (book_borrowed cmd.book_id cmd.borrower_id)
          []
        ≡ ok s

  run-Loan :
      (s₁ s₂ s₃ s : store.S)
      → run marshal unmarshal store ctx_done cmd s₁ s₂ s₃ ≡ borrowed s
      → Loan s₁ s₂ s₃ s
  unfolding run
  run-Loan s₁ s₂ s₃ s h = elim (Result-cases ((first_read s₁).1)) [
    | inr (e, f) ↦ cc (rw (run, f) at h)
    | inl (first, f) ↦ elim (Bool-cases ((first_read s₁).0)) [
      | inl t ↦ cc (rw (run, f, t) at h)
      | inr n ↦ elim (Result-cases ((second_read s₂ first).1)) [
        | inr (e, g) ↦ cc (rw (run, f, n, g) at h)
        | inl (both, g) ↦
            elim (Bool-cases (leb max_books_per_borrower (length (second_read s₂ first).0))) [
              | inl full ↦ cc (rw (run, f, n, g, full) at h)
              | inr low ↦ record {
                first = first;
                both = both;
                first_done = f;
                free = n;
                second_done = g;
                below = low;
                appended = settled _ s (rw (run, f, n, g, low) at h);
              }
            ]
      ]
    ]
  ]

  run-of_Loan :
      (s₁ s₂ s₃ s : store.S)
      → Loan s₁ s₂ s₃ s
      → run marshal unmarshal store ctx_done cmd s₁ s₂ s₃ ≡ borrowed s
  unfolding run settle
  run-of_Loan s₁ s₂ s₃ s l = rw (run, l.first_done, l.free, l.second_done, l.below, l.appended) refl

both_free :
    (log : List StoredEvent) (a b : ReadRecord)
    → any (violates log) (map condition_of (a ∷ b ∷ [])) ≡ false
    → (violates log (condition_of a) ≡ false) × (violates log (condition_of b) ≡ false)
both_free log a b h = (ground (arith, h), ground (arith, h))

-- Other clients may append between the reads of a run and its append. If positions ascend and a run
-- succeeds whose first read met a log, whose second read met that log with more events, and whose append
-- met that with still more, then the run that meets the last log in its reads and its append succeeds too,
-- and makes the same log.
pub run_serializable :
    (marshal : BookEvent → Result (List ℕ)) (unmarshal : Str → List ℕ → Result BookEvent)
    (ctx_done : Bool) (cmd : BorrowBook) (tx : ℕ) (log x y l : List StoredEvent)
    → IsAscending ((log ++ x) ++ y)
    → run marshal unmarshal (log_store log_read tx) ctx_done cmd log (log ++ x) ((log ++ x) ++ y)
      ≡ borrowed l
    → run marshal unmarshal
        (log_store log_read tx)
        ctx_done
        cmd
        ((log ++ x) ++ y)
        ((log ++ x) ++ y)
        ((log ++ x) ++ y)
      ≡ borrowed l
unfolding newest_of_book books_of_borrower track_books
run_serializable marshal unmarshal ctx_done cmd tx log x y l ascending ran =
    let store = log_store log_read tx in
    let loan =
      run-Loan marshal unmarshal store ctx_done cmd log (log ++ x) ((log ++ x) ++ y) l ran in
    let from_log = subst IsAscending (append_assoc log x y) ascending in
    let (a, one, of_book, fresh) =
      read_events-record (deserialize marshal unmarshal) note_newest ctx_done tx log
        (book_query cmd) newest false [] loan.first (backward 1)
        (Pairwise-append_left _ log (x ++ y) from_log) loan.first_done in
    let (b, two, of_borrower, fresh') =
      read_events-record (deserialize marshal unmarshal) track_books ctx_done tx (log ++ x)
        (borrower_query cmd) none [] loan.first loan.both (plain track_books_goes_on)
        (Pairwise-append_left _ (log ++ x) y ascending) loan.second_done in
    let shape : loan.both ≡ a ∷ b ∷ [] = two ∙ ap (λ rs. rs ++ b ∷ []) one in
    let frees = both_free ((log ++ x) ++ y) a b (
      subst (λ rs. any (violates ((log ++ x) ++ y)) (map condition_of rs) ≡ false) shape
        (no_conflict (to_dcb_event marshal) tx ((log ++ x) ++ y) l loan.both _ [] loan.appended)) in
    let first_same =
      subst
        (λ last.
          first_read marshal unmarshal store ctx_done cmd last
          ≡ first_read marshal unmarshal store ctx_done cmd log)
        (sym (append_assoc log x y))
        (read_events-grown (deserialize marshal unmarshal) note_newest ctx_done tx log (x ++ y)
          (book_query cmd) newest false [] a refl from_log fresh of_book
          (subst (λ last. violates last (condition_of a) ≡ false) (append_assoc log x y)
            frees.0)) in
    let second_same =
      read_events-grown (deserialize marshal unmarshal) track_books ctx_done tx (log ++ x) y
        (borrower_query cmd) none [] loan.first b refl ascending fresh' of_borrower frees.1 in
    run-of_Loan marshal unmarshal store ctx_done cmd _ _ _ l (record {
      first = loan.first;
      both = loan.both;
      first_done = ap (λ (r : Bool × Result (List ReadRecord)). r.1) first_same ∙ loan.first_done;
      free = ap (λ (r : Bool × Result (List ReadRecord)). r.0) first_same ∙ loan.free;
      second_done =
          ap (λ (r : List Str × Result (List ReadRecord)). r.1) second_same ∙ loan.second_done;
      below =
          ap (λ (r : List Str × Result (List ReadRecord)). leb max_books_per_borrower (length r.0))
            second_same
          ∙ loan.below;
      appended = loan.appended;
    })
