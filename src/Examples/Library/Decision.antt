-- ===== src/Examples/Library/Decision.antt =====
-- What BorrowBook decides, on the events of the book and of the borrower.
use fairway.Base.{ℕ, ◌≡◌, Bool, true, false, List, [], ◌∷◌, map, Option, none, filter, take}
use fairway.Fdb.{Str}
use fairway.Dcb.Types.{Versionstamp, Event, StoredEvent, Result, ok}
use fairway.Dcb.Log.{selects_any}
use fairway.Command.{dispatch}
use fairway.Examples.Library.{
  BookEvent, book_borrowed, book_returned, BorrowBook, book_query, borrower_query, note_newest,
  type_of, tags_of,
}

-- The last of the events is a loan.
abbrev pub on_loan : Bool → List BookEvent → Bool
on_loan before [] = before
on_loan before (book_borrowed b r ∷ events) = on_loan true events
on_loan before (book_returned b r ∷ events) = on_loan false events

module _ (unmarshal : Str → List ℕ → Result BookEvent) where
  -- The stored events are those of the library, in order.
  abbrev pub IsDecoded : List StoredEvent → List BookEvent → Type 0
  IsDecoded [] [] = Unit
  IsDecoded [] (b ∷ bs) = ⊥
  IsDecoded (e ∷ es) [] = ⊥
  IsDecoded (e ∷ es) (b ∷ bs) =
      (unmarshal e.event.event_type e.event.payload ≡ ok b) × IsDecoded es bs

module _ (unmarshal : Str → List ℕ → Result BookEvent) (ctx_done : Bool) where
  decode : Event → Result BookEvent
  decode e = unmarshal e.event_type e.payload

  first_only : List StoredEvent → Bool × Result (Option Versionstamp)
  first_only es = dispatch decode note_newest ctx_done true none false (map ok (take 1 es))

-- The events of the log that the two queries select.
abbrev pub book_events : BorrowBook → List StoredEvent → List StoredEvent
book_events cmd log = filter (selects_any (book_query cmd).items none) log

abbrev pub borrower_events : BorrowBook → List StoredEvent → List StoredEvent
borrower_events cmd log = filter (selects_any (borrower_query cmd).items none) log

abbrev pub loan_of : BorrowBook → List ℕ → Event
loan_of cmd payload = record {
  event_type = type_of (book_borrowed cmd.book_id cmd.borrower_id);
  tags = tags_of (book_borrowed cmd.book_id cmd.borrower_id);
  payload = payload;
}
