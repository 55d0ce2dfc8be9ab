-- ===== src/Examples/Library.antt =====
-- examples/library/borrow_book.go: the command BorrowBook. `marshal` and `unmarshal` stand for the JSON
-- of an event with its time. A run meets the store in the states of its two reads and of its append,
-- since other clients work between them.
pub mod Serial
pub mod Loans
pub mod Decision
use fairway.Base.{
  ℕ, Bool, true, false, not, List, [], ◌∷◌, ◌++◌, Option, none, some, if◌then◌else◌, codes, filter,
  length, leb,
}
use fairway.Base.Order.{ℕ_ord, list_ord, same}
use fairway.Fdb.{Str}
use fairway.Dcb.Types.{Event, Query, ReadOptions, Result, ok, err, Error, ◌>>=◌, has}
use fairway.Command.{DcbStore, ReadRecord, read_events, append_events}

pub data BookEvent : Type 0 where
  book_borrowed book_returned : Str → Str → BookEvent

abbrev pub book_tag : Str → Str
book_tag book_id = codes "book_id:" ++ book_id

abbrev pub borrower_tag : Str → Str
borrower_tag borrower_id = codes "borrower_id:" ++ borrower_id

abbrev pub tags_of : BookEvent → List Str
tags_of (book_borrowed b r) = book_tag b ∷ borrower_tag r ∷ []
tags_of (book_returned b r) = book_tag b ∷ borrower_tag r ∷ []

-- reflect.TypeOf(e.Data).Name()
abbrev pub type_of : BookEvent → Str
type_of (book_borrowed b r) = codes "BookBorrowed"
type_of (book_returned b r) = codes "BookReturned"

pub record BorrowBook : Type 0 where
  pub book_id : Str
  pub borrower_id : Str

pub data BorrowError : Type 0 where
  book_already_borrowed borrower_limit_reached : BorrowError
  store_error : Error → BorrowError

pub data BorrowOutcome {ℓ} (S : Type ℓ) : Type ℓ where
  borrowed : S → BorrowOutcome S
  refused : BorrowError → BorrowOutcome S

abbrev pub max_books_per_borrower : ℕ
max_books_per_borrower = 5

abbrev both_types : List Str
both_types = codes "BookBorrowed" ∷ codes "BookReturned" ∷ []

abbrev pub book_query : BorrowBook → Query
book_query cmd = record {
  items = (record { types = both_types; tags = book_tag cmd.book_id ∷ [] }) ∷ [];
}

abbrev pub borrower_query : BorrowBook → Query
borrower_query cmd = record {
  items = (record { types = both_types; tags = borrower_tag cmd.borrower_id ∷ [] }) ∷ [];
}

-- dcb.ReadOptions{Reverse: true, Limit: 1}
abbrev pub newest : Option ReadOptions
newest = some (record { limit = 1; after = none; reverse = true })

-- `_, isBorrowed = e.Data.(BookBorrowed)`, and no further event
unfoldable pub note_newest : Bool → BookEvent → Bool × Bool
note_newest is_borrowed (book_borrowed b r) = (true, false)
note_newest is_borrowed (book_returned b r) = (false, false)

-- The keys of the map `borrowerBooks`
unfoldable pub track_books : List Str → BookEvent → List Str × Bool
track_books books (book_borrowed b r) = (if has books b then books else b ∷ books, true)
track_books books (book_returned b r) = (filter (λ x. not (same x b)) books, true)

unfoldable pub settle {ℓ} : {S : Type ℓ} → Result S → BorrowOutcome S
settle (ok s) = borrowed s
settle (err e) = refused (store_error e)

-- ToDcbEvent
unfoldable pub to_dcb_event : (BookEvent → Result (List ℕ)) → BookEvent → Result Event
to_dcb_event marshal e = marshal e >>= λ payload.
    ok (record { event_type = type_of e; tags = tags_of e; payload = payload })

module _ (marshal : BookEvent → Result (List ℕ)) (unmarshal : Str → List ℕ → Result BookEvent) where
  abbrev pub deserialize : Event → Result BookEvent
  deserialize e = unmarshal e.event_type e.payload

  module _ (store : DcbStore) (ctx_done : Bool) (cmd : BorrowBook) where
    -- Whether the newest event of the book is a loan, and the reads so far.
    unfoldable pub newest_of_book : store.S → List ReadRecord → Bool × Result (List ReadRecord)
    unfolding read_events note_newest
    newest_of_book s reads =
        read_events deserialize note_newest store s ctx_done (book_query cmd) newest false reads

    -- The books of the borrower, and the reads so far.
    unfoldable pub books_of_borrower :
        store.S → List ReadRecord → List Str × Result (List ReadRecord)
    unfolding read_events track_books
    books_of_borrower s reads =
        read_events deserialize track_books store s ctx_done (borrower_query cmd) none [] reads

    -- Run, with the states of the store at its two reads and at its append
    unfoldable pub run : store.S → store.S → store.S → BorrowOutcome store.S
    unfolding newest_of_book books_of_borrower settle append_events to_dcb_event
    run s₁ s₂ s₃ =
        let (is_borrowed, first) = newest_of_book s₁ [] in
        elim first [
          | err e ↦ refused (store_error e)
          | ok reads ↦ elim is_borrowed [
            | true ↦ refused book_already_borrowed
            | false ↦
                let (books, second) = books_of_borrower s₂ reads in
                elim second [
                  | err e ↦ refused (store_error e)
                  | ok both ↦ elim (leb max_books_per_borrower (length books)) [
                    | true ↦ refused borrower_limit_reached
                    | false ↦ settle (
                        append_events (to_dcb_event marshal) store s₃ both
                          (book_borrowed cmd.book_id cmd.borrower_id) [])
                  ]
                ]
          ]
        ]
