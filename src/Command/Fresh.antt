-- ===== src/Command/Fresh.antt =====
-- The reads whose records are fresh on the log.
use fairway.Base.{
  ℕ, zero, suc, ◌<◌, ◌≡◌, refl, sym, ap, subst, ◌∙◌, inl, inr, Bool, true, false, List, [], ◌∷◌,
  ◌++◌, map, Option, none, some, arith, In, here, there, In-append, In-filter, In-filter_of, filter,
  All, All-In, Pairwise, Pairwise-filter, take, leb,
}
use fairway.Dcb.Types.{
  Versionstamp, Event, Query, ReadOptions, StoredEvent, Result, ok, Result-cases, ok_injective,
}
use fairway.Dcb.Log.{selects_any, IsAscending}
use fairway.Dcb.Read.Iterators.{directed, In-directed, In-directed_of, Pairwise-directed}
use fairway.Dcb.Read.Queue.{Ahead}
use fairway.Command.{ReadRecord, is_reverse, dispatch, read_events}
use fairway.Command.Conditions.{covers, Ascends, dispatch-covers, log_store}
use fairway.Command.Reads.{
  up_to, log_read, IsFresh, In-up_to, In-take, dispatch-seen, dispatch-reverse,
}

-- The read looks at all that its query selects: it goes forward, without a limit and with a handler that
-- asks for every event, or it goes backward, with any limit and any handler; it starts at no position.
pub data IsWhole {E H : Type 0} (handler : H → E → H × Bool) : Option ReadOptions → Type 0 where
  plain : ((h : H) (e : E) → (handler h e).1 ≡ true) → IsWhole handler none
  backward : (n : ℕ) → IsWhole handler (some (record { limit = n; after = none; reverse = true }))

Ascends-of_Pairwise : (es : List StoredEvent) → IsAscending es → Ascends none es
Ascends-of_Pairwise [] h = tt
Ascends-of_Pairwise (e ∷ es) h = (refl, at e es h.0 h.1)
  where
    at :
        (e : StoredEvent) (es : List StoredEvent)
        → All (λ x. e.position < x.position) es
        → IsAscending es
        → Ascends (some e.position) es
    at e [] h k = tt
    at e (x ∷ es) h k = (ground (arith, h.0), at x es k.0 k.1)

-- What a limit leaves of a list that is not empty starts with its first element.
up_to-first {ℓ} :
    {A : Type ℓ} (n : ℕ) (x : A) (xs : List A)
    → (ys : List A) × (up_to n (x ∷ xs) ≡ x ∷ ys) × ((a : A) → In a ys → In a xs)
up_to-first zero x xs = (xs, refl, λ a i. i)
up_to-first (suc n) x xs = (take n xs, refl, λ a i. In-take n xs i)

module _ {E H : Type 0} (deserialize : Event → Result E) (handler : H → E → H × Bool)
    (ctx_done : Bool) (log : List StoredEvent) (ascending : IsAscending log) (query : Query) where
  abbrev picks : StoredEvent → Bool
  picks e = selects_any query.items none e

  abbrev dispatched : Bool → ℕ → H → Result (Option Versionstamp)
  dispatched reverse n h =
      (dispatch deserialize handler ctx_done reverse none h
        (map ok (up_to n (filter picks (directed reverse log))))).1

  -- A versionstamp that was recorded is that of an event of the log.
  dispatched-seen :
      (reverse : Bool) (n : ℕ) (h : H) (p : Versionstamp)
      → dispatched reverse n h ≡ ok (some p)
      → (e : StoredEvent) × In e log × (e.position ≡ p)
  dispatched-seen reverse n h p r =
      elim (dispatch-seen deserialize handler ctx_done reverse none h
        (up_to n (filter picks (directed reverse log))) p r) [
          | inl was ↦ cc was
          | inr (e, i, at) ↦ (e, In-directed reverse log (In-filter picks _ (In-up_to n _ i)).0, at)
        ]

  forward-covers :
      (h : H) (highest : Option Versionstamp) (e : StoredEvent)
      → ((h : H) (e : E) → (handler h e).1 ≡ true)
      → dispatched false 0 h ≡ ok highest
      → In e log
      → picks e ≡ true
      → covers highest e.position ≡ true
  forward-covers h highest e goes_on r i q =
      All-In (λ e. covers highest e.position ≡ true) (filter picks log)
        (dispatch-covers deserialize handler ctx_done false h (filter picks log) highest goes_on
          (λ f.
            Ascends-of_Pairwise (filter picks log)
              (Pairwise-filter (λ a b. a.position < b.position) picks log ascending))
          r)
        (In-filter_of picks log i q)

  backward-covers :
      (n : ℕ) (h : H) (highest : Option Versionstamp) (e : StoredEvent)
      → dispatched true n h ≡ ok highest
      → In e log
      → picks e ≡ true
      → covers highest e.position ≡ true
  backward-covers n h highest e r i q =
      at (filter picks (directed true log)) r
        (Pairwise-filter (λ a b. Ahead true a.position b.position) picks _
          (Pairwise-directed (λ e. e.position) true log ascending))
        (In-filter_of picks _ (In-directed_of true log i) q)
    where
      at :
          (es : List StoredEvent)
          → (dispatch deserialize handler ctx_done true none h (map ok (up_to n es))).1 ≡ ok highest
          → Pairwise (λ a b. Ahead true a.position b.position) es
          → In e es
          → covers highest e.position ≡ true
      at [] s order j = elim j [ ]
      at (x ∷ xs) s order j =
          let (ys, first, rest) = up_to-first n x xs in
          let found : highest ≡ some x.position =
            dispatch-reverse deserialize handler ctx_done h x ys highest
              (λ y k. All-In (λ b. Ahead true x.position b.position) xs order.0 (rest y k))
              (rw first at s) in
          rw found (not_before j)
        where
          not_before : In e (x ∷ xs) → leb e.position x.position ≡ true
          not_before (here is) = rw is (ground arith)
          not_before (there k) =
              let low = All-In (λ b. Ahead true x.position b.position) xs order.0 k in
              ground (arith, low)

  pub dispatch-IsFresh :
      (opts : Option ReadOptions) (h : H) (highest : Option Versionstamp)
      → IsWhole handler opts
      → (dispatch deserialize handler ctx_done (is_reverse opts) none h (log_read log query opts)).1
        ≡ ok highest
      → IsFresh log (record { query = query; highest_seen_versionstamp = highest })
  dispatch-IsFresh none h highest (plain goes_on) r = record {
    covered = λ e i q. forward-covers h highest e goes_on r i q;
    seen = λ p is. dispatched-seen false 0 h p (r ∙ ap ok is);
  }
  dispatch-IsFresh (some o) h highest (backward n) r = record {
    covered = λ e i q. backward-covers n h highest e r i q;
    seen = λ p is. dispatched-seen true n h p (r ∙ ap ok is);
  }

-- On a log at ascending positions, a read that looks at all that its query selects, and succeeds, adds one
-- record after the earlier ones. The record has the read's query and is fresh: the versionstamp that it
-- holds is at or above the position of each event of the log that the query selects, and is the position
-- of an event of the log.
pub read_events-record :
    {E H : Type 0} (deserialize : Event → Result E) (handler : H → E → H × Bool) (ctx_done : Bool)
    (tx : ℕ) (log : List StoredEvent) (query : Query) (opts : Option ReadOptions) (h : H)
    (reads later : List ReadRecord)
    → IsWhole handler opts
    → IsAscending log
    → (read_events deserialize handler (log_store log_read tx) log ctx_done query opts h reads).1
      ≡ ok later
    → (r : ReadRecord) × (later ≡ reads ++ r ∷ []) × (r.query ≡ query) × IsFresh log r
unfolding read_events
read_events-record deserialize handler ctx_done tx log query opts h reads later whole ascending
      done =
    elim (Result-cases (
      (dispatch deserialize handler ctx_done (is_reverse opts) none h
        (log_read log query opts)).1)) [
          | inr (failure, f) ↦ cc (rw f at done)
          | inl (highest, f) ↦ (
            record { query = query; highest_seen_versionstamp = highest },
            sym (ok_injective (rw f at done)),
            refl,
            dispatch-IsFresh deserialize handler ctx_done log ascending query opts h highest whole
                f,
          )
        ]

-- If the earlier records are fresh, all are.
pub read_events-IsFresh :
    {E H : Type 0} (deserialize : Event → Result E) (handler : H → E → H × Bool) (ctx_done : Bool)
    (tx : ℕ) (log : List StoredEvent) (query : Query) (opts : Option ReadOptions) (h : H)
    (reads later : List ReadRecord)
    → IsWhole handler opts
    → IsAscending log
    → ((r : ReadRecord) → In r reads → IsFresh log r)
    → (read_events deserialize handler (log_store log_read tx) log ctx_done query opts h reads).1
      ≡ ok later
    → (r : ReadRecord) → In r later
    → IsFresh log r
read_events-IsFresh deserialize handler ctx_done tx log query opts h reads later whole ascending
      fresh done r i =
    let (new, made, of_query, new_fresh) =
      read_events-record deserialize handler ctx_done tx log query opts h reads later whole
        ascending done in
    elim (In-append reads _ (subst (In r) made i)) [
      | inl old ↦ fresh r old
      | inr last ↦ elim last [
        | here is ↦ subst (IsFresh log) (sym is) new_fresh
        | there none_left ↦ elim none_left [ ]
      ]
    ]
