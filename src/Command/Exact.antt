-- ===== src/Command/Exact.antt =====
-- An append after reads fails exactly if another client has appended an event that one of them selects.
use fairway.Base.{
  sym, subst, ℕ, ◌<◌, ◌≡◌, refl, ◌∙◌, inl, inr, Bool, true, false, ◌&&◌, Bool-cases, List, [], ◌∷◌,
  ◌++◌, map, Option, none, some, arith, In, here, there, In-append_right, any, any-append, All-In,
  Pairwise, if◌then◌else◌,
}
use mathlib.Core.List.{append-nil}
use fairway.Dcb.Types.{
  Versionstamp, Event, QueryItem, StoredEvent, Result, ok, err, append_condition_failed,
}
use fairway.Dcb.Append.{validate, stored_from}
use fairway.Dcb.Log.{selects_any, is_after, IsAscending}
use fairway.Dcb.Log.Refinement.{violates}
use fairway.Command.{ReadRecord, serialize_events, append_events, condition_of}
use fairway.Command.Conditions.{covers, log_store, serialized_some}
use fairway.Command.Reads.{IsFresh, log_read}

-- Whether a query selects an event, at any position.
abbrev pub selects_from_start : ReadRecord → StoredEvent → Bool
selects_from_start r e = selects_any r.query.items none e

selects_any-after :
    (items : List QueryItem) (after : Option Versionstamp) (e : StoredEvent)
    → selects_any items after e ≡ (is_after after e.position && selects_any items none e)
selects_any-after [] after e = ground arith
selects_any-after (item ∷ items) after e = rw (selects_any-after items after e) (ground arith)

any_none {ℓ} :
    {A : Type ℓ} (p : A → Bool) (xs : List A) → ((a : A) → In a xs → p a ≡ false) → any p xs ≡ false
any_none p [] h = refl
any_none p (x ∷ xs) h = rw (h x (here refl)) (any_none p xs (λ a i. h a (there i)))

any_ext {ℓ} :
    {A : Type ℓ} (p q : A → Bool) (xs : List A)
    → ((a : A) → In a xs → p a ≡ q a)
    → any p xs ≡ any q xs
any_ext p q [] h = refl
any_ext p q (x ∷ xs) h = rw (h x (here refl), any_ext p q xs (λ a i. h a (there i))) refl

any-map {ℓ κ} :
    {A : Type ℓ} {B : Type κ} (p : B → Bool) (f : A → B) (xs : List A)
    → any p (map f xs) ≡ any (λ a. p (f a)) xs
any-map p f [] = refl
any-map p f (x ∷ xs) = rw (any-map p f xs) refl

across {ℓ} :
    {A : Type ℓ} (R : A → A → Type ℓ) (xs ys : List A) {a b : A}
    → Pairwise R (xs ++ ys)
    → In a xs
    → In b ys
    → R a b
across R [] ys h i j = elim i [ ]
across R (x ∷ xs) ys {b = b} h (here e) j =
    rw e (All-In (R x) (xs ++ ys) h.0 (In-append_right xs ys j))
across R (x ∷ xs) ys h (there i) j = across R xs ys h.1 i j

covered_not_after :
    (after : Option Versionstamp) (p : Versionstamp)
    → covers after p ≡ true
    → is_after after p ≡ false
covered_not_after none p h = cc h
covered_not_after (some q) p h = ground (arith, h)

module _ (old new : List StoredEvent) (ascending : IsAscending (old ++ new)) (r : ReadRecord)
    (fresh : IsFresh old r) where
  not_violated_by_old :
      (e : StoredEvent) → In e old → selects_any r.query.items r.highest_seen_versionstamp e ≡ false
  not_violated_by_old e i = elim (Bool-cases (selects_from_start r e)) [
    | inl selects ↦
        rw
          (
            selects_any-after r.query.items r.highest_seen_versionstamp e,
            covered_not_after r.highest_seen_versionstamp e.position (fresh.covered e i selects),
          )
          refl
    | inr passes ↦
        rw (selects_any-after r.query.items r.highest_seen_versionstamp e, passes) (ground arith)
  ]

  new_is_after :
      (e : StoredEvent) → In e new → is_after r.highest_seen_versionstamp e.position ≡ true
  new_is_after e i = at r.highest_seen_versionstamp refl
    where
      at :
          (h : Option Versionstamp) → r.highest_seen_versionstamp ≡ h → is_after h e.position ≡ true
      at none is = refl
      at (some p) is =
          let (x, j, q) = fresh.seen p is in
          let low : x.position < e.position =
            across (λ a b. a.position < b.position) old new ascending j i in
          ground (arith, q, low)

  violated_by_new :
      (e : StoredEvent)
      → In e new
      → selects_any r.query.items r.highest_seen_versionstamp e ≡ selects_from_start r e
  violated_by_new e i =
      rw (selects_any-after r.query.items r.highest_seen_versionstamp e, new_is_after e i) refl

  -- The condition of a fresh record looks at the new events only.
  pub violates-fresh : violates (old ++ new) (condition_of r) ≡ any (selects_from_start r) new
  violates-fresh =
      rw
        (
          any-append (selects_any r.query.items r.highest_seen_versionstamp) old new,
          any_none (selects_any r.query.items r.highest_seen_versionstamp) old not_violated_by_old,
          any_ext (selects_any r.query.items r.highest_seen_versionstamp) (selects_from_start r) new
              violated_by_new,
        )
        refl

-- Some query of the reads selects some of the events.
abbrev pub touched : List ReadRecord → List StoredEvent → Bool
touched reads new = any (λ r. any (selects_from_start r) new) reads

pub touched-none : (reads : List ReadRecord) → touched reads [] ≡ false
touched-none reads = any_none (λ r. false) reads (λ r i. refl)

-- If the records of the reads are fresh on the log that was read, and the log has since grown by new
-- events at higher positions, an append of events that serialize and are valid fails with the append
-- condition if the query of some read selects some new event, and else it succeeds and appends them.
pub append_events_exact :
    {E : Type 0} (serialize : E → Result Event) (tx : ℕ) (old new : List StoredEvent)
    (reads : List ReadRecord) (event : E) (remaining : List E) (events : List Event)
    → serialize_events serialize (event ∷ remaining) ≡ ok events
    → validate events ≡ ok tt
    → IsAscending (old ++ new)
    → ((r : ReadRecord) → In r reads → IsFresh old r)
    → append_events serialize (log_store log_read tx) (old ++ new) reads event remaining ≡ (
        if touched reads new
        then err append_condition_failed
        else ok ((old ++ new) ++ stored_from tx 0 events))
unfolding append_events
append_events_exact serialize tx old new reads event remaining events ser valid ascending fresh =
    let conflicts : any (violates (old ++ new)) (map condition_of reads) ≡ touched reads new =
      any-map (violates (old ++ new)) condition_of reads
      ∙ any_ext (λ r. violates (old ++ new) (condition_of r)) (λ r. any (selects_from_start r) new)
          reads (λ r i. violates-fresh old new ascending r (fresh r i)) in
    rw (ser, serialized_some serialize event remaining events ser, valid, conflicts) refl

-- Nothing was appended since the reads, so the append succeeds.
pub append_events_alone :
    {E : Type 0} (serialize : E → Result Event) (tx : ℕ) (log : List StoredEvent)
    (reads : List ReadRecord) (event : E) (remaining : List E) (events : List Event)
    → serialize_events serialize (event ∷ remaining) ≡ ok events
    → validate events ≡ ok tt
    → IsAscending log
    → ((r : ReadRecord) → In r reads → IsFresh log r)
    → append_events serialize (log_store log_read tx) log reads event remaining
      ≡ ok (log ++ stored_from tx 0 events)
append_events_alone serialize tx log reads event remaining events ser valid ascending fresh =
    subst
      (λ l.
        append_events serialize (log_store log_read tx) l reads event remaining
        ≡ ok (l ++ stored_from tx 0 events))
      (append-nil log)
      (append_events_exact serialize tx log [] reads event remaining events ser valid
          (subst IsAscending (sym (append-nil log)) ascending) fresh
        ∙ rw (touched-none reads) refl)
