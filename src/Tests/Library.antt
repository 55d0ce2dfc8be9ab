-- ===== src/Tests/Library.antt =====
-- Loans of the library of examples/library: a book that was returned, and another client's loan.
use fairway.Base.{
  ℕ, ◌≡◌, refl, false, List, [], ◌∷◌, ◌++◌, arith, codes, length, take, drop, if◌then◌else◌,
}
use fairway.Base.Order.{ℕ_ord, list_ord, same}
use fairway.Fdb.{Str}
use fairway.Dcb.Types.{StoredEvent, Result, ok, err, no_data}
use fairway.Dcb.Append.{validate, stored_from}
use fairway.Dcb.Log.{IsAscending}
use fairway.Command.{track, dispatch, read_events, serialize_events, append_events}
use fairway.Command.Conditions.{log_store}
use fairway.Command.Reads.{log_read}
use fairway.Examples.Library.{
  BookEvent, book_borrowed, book_returned, BorrowBook, borrowed, type_of, tags_of, note_newest,
  track_books, newest_of_book, books_of_borrower, settle, to_dcb_event, run,
}
use fairway.Examples.Library.Serial.{run_serializable}
use fairway.Examples.Library.Decision.{loan_of}

-- In place of JSON: the length of the book's id, the id, and the borrower's id.
abbrev payload_of : BookEvent → List ℕ
payload_of (book_borrowed b r) = length b ∷ b ++ r
payload_of (book_returned b r) = length b ∷ b ++ r

abbrev marshal : BookEvent → Result (List ℕ)
marshal e = ok (payload_of e)

abbrev unmarshal : Str → List ℕ → Result BookEvent
unmarshal t [] = err no_data
unmarshal t (n ∷ rest) =
    if same t (codes "BookBorrowed")
    then ok (book_borrowed (take n rest) (drop n rest))
    else ok (book_returned (take n rest) (drop n rest))

abbrev stored : ℕ → BookEvent → StoredEvent
stored p e = record {
  event = record { event_type = type_of e; tags = tags_of e; payload = payload_of e };
  position = p;
}

abbrev dune : Str
dune = codes "dune"

abbrev ann : Str
ann = codes "ann"

abbrev bob : Str
bob = codes "bob"

-- Ann has returned the book.
abbrev before : List StoredEvent
before = stored 65536 (book_borrowed dune ann) ∷ stored 131072 (book_returned dune ann) ∷ []

-- Meanwhile Ann borrows another one.
abbrev meanwhile : List StoredEvent
meanwhile = stored 196608 (book_borrowed (codes "emma") ann) ∷ []

abbrev bob_borrows : BorrowBook
bob_borrows = record { book_id = dune; borrower_id = bob }

abbrev bobs_loan : List StoredEvent
bobs_loan = stored_from 4 0 (loan_of bob_borrows (payload_of (book_borrowed dune bob)) ∷ [])

all-IsAscending : IsAscending ((before ++ []) ++ meanwhile)
all-IsAscending = ((omega arith, (omega arith, tt)), ((omega arith, tt), (tt, tt)))

abbrev ann_borrows : BorrowBook
ann_borrows = record { book_id = dune; borrower_id = ann }

bob_meets_ann :
    run marshal unmarshal
      (log_store log_read 4)
      false
      bob_borrows
      before
      (before ++ [])
      ((before ++ []) ++ meanwhile)
    ≡ borrowed (((before ++ []) ++ meanwhile) ++ bobs_loan)
unfolding run newest_of_book books_of_borrower settle append_events serialize_events to_dcb_event
    read_events dispatch track note_newest track_books validate
bob_meets_ann = refl

run_serializable_example :
    run marshal unmarshal
      (log_store log_read 4)
      false
      bob_borrows
      ((before ++ []) ++ meanwhile)
      ((before ++ []) ++ meanwhile)
      ((before ++ []) ++ meanwhile)
    ≡ borrowed (((before ++ []) ++ meanwhile) ++ bobs_loan)
run_serializable_example =
    run_serializable marshal unmarshal false bob_borrows 4 before [] meanwhile
      (((before ++ []) ++ meanwhile) ++ bobs_loan) all-IsAscending bob_meets_ann
