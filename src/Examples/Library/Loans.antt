-- ===== src/Examples/Library/Loans.antt =====
-- The books that a borrower holds: the map of examples/library/borrow_book.go, and the loans that no later
-- event is about.
use fairway.Base.{
  suc, ◌+◌, ◌≡◌, refl, ap, ◌∙◌, inl, inr, Bool, true, false, not, ◌||◌, Bool-cases, List, [], ◌∷◌,
  any, filter, length, if◌then◌else◌, arith,
}
use fairway.Base.Order.{ℕ_ord, list_ord, same, same_sym, same_iff}
use fairway.Fdb.{Str}
use fairway.Dcb.Types.{has, NoRepeat}
use fairway.Examples.Library.{BookEvent, book_borrowed, book_returned, track_books}

abbrev pub is_about : Str → BookEvent → Bool
is_about x (book_borrowed b r) = same x b
is_about x (book_returned b r) = same x b

-- The books of the loans with no later event about the same book
abbrev pub open_loans : List BookEvent → List Str
open_loans [] = []
open_loans (book_borrowed b r ∷ events) =
    let rest = open_loans events in if any (is_about b) events then rest else b ∷ rest
open_loans (book_returned b r ∷ events) = open_loans events

-- The map after the events
abbrev pub held : List Str → List BookEvent → List Str
held books [] = books
held books (e ∷ events) = held (track_books books e).0 events

filter-all : (books : List Str) → filter (λ x. not false) books ≡ books
filter-all [] = refl
filter-all (x ∷ xs) = ap (λ (ys : List Str). x ∷ ys) (filter-all xs)

-- `q` marks the books that a later event is about.
module _ (q : Str → Bool) (b : Str) where
  unmarked : Str → Bool
  unmarked x = not (q x)

  others : Str → Bool
  others x = not (same x b || q x)

  filter-others_marked :
      (books : List Str) → q b ≡ true → filter others books ≡ filter unmarked books
  unfolding others unmarked
  filter-others_marked [] m = refl
  filter-others_marked (x ∷ xs) m = elim (Bool-cases (same x b)) [
    | inl t ↦
        let marked : q x ≡ true = rw ((same_iff x b).0 t) m in
        rw (t, marked) (filter-others_marked xs m)
    | inr f ↦ rw (f, filter-others_marked xs m) refl
  ]

  filter-others_absent :
      (books : List Str) → has books b ≡ false → filter others books ≡ filter unmarked books
  unfolding others unmarked
  filter-others_absent [] h = refl
  filter-others_absent (x ∷ xs) h =
      let apart : same x b ≡ false = same_sym x b ∙ ground (arith, h) in
      rw (apart, filter-others_absent xs (ground (arith, h))) refl

  length-filter_others :
      (books : List Str)
      → NoRepeat books
      → has books b ≡ true
      → q b ≡ false
      → length (filter unmarked books) ≡ suc (length (filter others books))
  unfolding others unmarked
  length-filter_others [] n h u = cc h
  length-filter_others (x ∷ xs) n h u = elim (Bool-cases (same x b)) [
    | inl t ↦
        let e : x ≡ b = (same_iff x b).0 t in
        let free : q x ≡ false = rw e u in
        let absent : has xs b ≡ false = rw e at n.0 in
        rw (t, free, filter-others_absent xs absent) refl
    | inr f ↦
        let there_still : has xs b ≡ true = ground (arith, h, same_sym b x ∙ f) in
        let rest = length-filter_others xs n.1 there_still u in
        elim (Bool-cases (q x)) [ inl m ↦ rw (f, m) rest | inr k ↦ rw (f, k) (ap suc rest) ]
  ]

  filter-removed :
      (books : List Str)
      → filter unmarked (filter (λ x. not (same x b)) books) ≡ filter others books
  unfolding others unmarked
  filter-removed [] = refl
  filter-removed (x ∷ xs) = elim (Bool-cases (same x b)) [
    | inl t ↦ rw t (filter-removed xs)
    | inr f ↦ rw (f, filter-removed xs) refl
  ]

has-filter :
    (p : Str → Bool) (xs : List Str) (x : Str) → has xs x ≡ false → has (filter p xs) x ≡ false
has-filter p [] x h = refl
has-filter p (y ∷ ys) x h =
    let rest = has-filter p ys x (ground (arith, h)) in
    elim (Bool-cases (p y)) [ inl t ↦ rw t (ground (arith, h, rest)) | inr f ↦ rw f rest ]

filter-NoRepeat : (p : Str → Bool) (xs : List Str) → NoRepeat xs → NoRepeat (filter p xs)
filter-NoRepeat p [] n = tt
filter-NoRepeat p (x ∷ xs) n = elim (Bool-cases (p x)) [
  | inl t ↦ rw t (has-filter p xs x n.0, filter-NoRepeat p xs n.1)
  | inr f ↦ rw f (filter-NoRepeat p xs n.1)
]

-- The books of the map that no later event is about stay in it.
length-held :
    (books : List Str) (events : List BookEvent)
    → NoRepeat books
    → length (held books events)
      ≡ length (open_loans events) + length (filter (λ x. not (any (is_about x) events)) books)
unfolding track_books unmarked others
length-held books [] n =
    let same_books = ap (λ (l : List Str). length l) (filter-all books) in omega (arith, same_books)
length-held books (book_borrowed b r ∷ es) n = elim (Bool-cases (any (is_about b) es)) [
  | inl later ↦
      let same_rest = filter-others_marked (λ x. any (is_about x) es) b books later in
      elim (Bool-cases (has books b)) [
        | inl known ↦ rw (known, later, same_rest) (length-held books es n)
        | inr new ↦
            let added = length-held (b ∷ books) es (new, n) in
            rw (new, later, same_rest) (rw later at added)
      ]
  | inr last ↦ elim (Bool-cases (has books b)) [
    | inl known ↦
        let one = length-filter_others (λ x. any (is_about x) es) b books n known last in
        rw (known, last) (length-held books es n ∙ omega (arith, one))
    | inr new ↦
        let same_rest = filter-others_absent (λ x. any (is_about x) es) b books new in
        let added = length-held (b ∷ books) es (new, n) in
        rw (new, last, same_rest) ((rw last at added) ∙ omega arith)
  ]
]
length-held books (book_returned b r ∷ es) n =
    length-held (filter (λ x. not (same x b)) books) es (filter-NoRepeat _ books n)
    ∙ ap (λ (l : List Str). length (open_loans es) + length l)
        (filter-removed (λ x. any (is_about x) es) b books)

-- The map has as many books as there are loans with no later event about the same book.
pub length-held_open :
    (events : List BookEvent) → length (held [] events) ≡ length (open_loans events)
length-held_open events = length-held [] events tt ∙ omega arith
