-- ===== src/Dcb/Read/Deliver.antt =====
-- The merge delivers the events of its iterators in the order of the read: it is the plain loop over them.
use fairway.Base.{
  some_injective, ℕ, zero, suc, ◌<◌, ◌≡◌, ◌≢◌, refl, sym, ap, subst, ◌∙◌, ◌⊎◌, inl, inr, Bool, true,
  false, Bool-cases, Option-cases, List, [], ◌∷◌, Option, none, some, arith, In, here, there,
  All-In, Pairwise,
}
use fairway.Dcb.Types.{Versionstamp, StoredEvent, Result, ok, Context}
use fairway.Dcb.Read.{RangeIterator, Heap, Ending, ended, merge, size, is_repeat, limit_reached}
use fairway.Dcb.Read.Merge.{is_repeat-some, size-pushed, size-popped}
use fairway.Dcb.Read.Queue.{
  Ahead, Ahead-trans, not-Ahead, AtOrAhead, IsQueue, Popped, IsOrdered, Has, left_over,
  left_over-IsOrdered, left_over-Has, left_over-AtOrAhead, Has-left_over,
}

-- A read without an index: each event is given to `yield` in turn, up to the limit.
unfoldable pub deliver :
    {Y : Type 0} → (Y → StoredEvent → Y × Bool) → ℕ → ℕ → Y → List StoredEvent → Y × Ending
unfolding limit_reached
deliver yield limit count y [] = (y, ended count)
deliver yield limit count y (e ∷ es) = elim ((yield y e).1) [
  | false ↦ ((yield y e).0, ended count)
  | true ↦ elim (limit_reached limit (suc count)) [
    | true ↦ ((yield y e).0, ended (suc count))
    | false ↦ deliver yield limit (suc count) (yield y e).0 es
  ]
]

-- What the iterators hold, from `last` on, is the events still to come, in order.
pub record Pending (reverse : Bool) (fetch : Versionstamp → Result (Option StoredEvent))
    (last : Option Versionstamp) (items : List RangeIterator) (es : List StoredEvent) : Type 0 where
  pub ordered : IsOrdered reverse items
  pub held :
      (v : Versionstamp)
      → Has items v
      → (last ≡ some v) ⊎ ((e : StoredEvent) × In e es × (e.position ≡ v))
  pub covered : (e : StoredEvent) → In e es → Has items e.position
  pub in_order : Pairwise (λ a b. Ahead reverse a.position b.position) es
  pub later :
      (e : StoredEvent) (q : Versionstamp) → In e es → last ≡ some q → Ahead reverse q e.position
  pub fetched : (e : StoredEvent) → In e es → fetch e.position ≡ ok (some e)

not_repeat :
    (last : Option Versionstamp) (v : Versionstamp) → is_repeat last v ≡ false → last ≢ some v
unfolding is_repeat
not_repeat none v h e = cc
not_repeat (some q) v h e = let qv : q ≡ v = some_injective e in ground (arith, h, qv)

module _ {reverse : Bool} {fetch : Versionstamp → Result (Option StoredEvent)}
    {last : Option Versionstamp} {items : List RangeIterator} {i : RangeIterator}
    {rest : List RangeIterator} {es : List StoredEvent} (popped : Popped reverse items i rest)
    (p : Pending reverse fetch last items es) where
  -- A versionstamp that was delivered is skipped.
  Pending-repeat : last ≡ some i.current → Pending reverse fetch last (left_over i rest) es
  Pending-repeat again = record {
    ordered = left_over-IsOrdered popped p.ordered;
    held = λ v h. p.held v (left_over-Has popped p.ordered v h);
    covered = λ e j. elim (Has-left_over popped p.ordered e.position (p.covered e j)) [
      | inr h ↦ h
      | inl is ↦ absurd (
          not-Ahead reverse i.current
            (subst (Ahead reverse i.current) (sym is) (p.later e i.current j again)))
    ];
    in_order = p.in_order;
    later = p.later;
    fetched = p.fetched;
  }

  -- No event to come is before the item that was taken out.
  first-AtOrAhead-events : (e : StoredEvent) → In e es → AtOrAhead reverse i.current e.position
  first-AtOrAhead-events e j = elim (Has-left_over popped p.ordered e.position (p.covered e j)) [
    | inl is ↦ inl is
    | inr h ↦ left_over-AtOrAhead popped p.ordered e.position h
  ]

module _ {reverse : Bool} {fetch : Versionstamp → Result (Option StoredEvent)}
    {last : Option Versionstamp} {items : List RangeIterator} {i : RangeIterator}
    {rest : List RangeIterator} (popped : Popped reverse items i rest)
    (new : last ≢ some i.current) where
  -- A versionstamp that was not delivered is that of an event to come, so there is one,
  Pending-some : Pending reverse fetch last items [] → ⊥
  Pending-some p = elim (p.held i.current (i, popped.was, here refl)) [
    | inl was ↦ new was
    | inr (e, j, at) ↦ elim j [ ]
  ]

  -- and the first one.
  Pending-first :
      (x : StoredEvent) (more : List StoredEvent)
      → Pending reverse fetch last items (x ∷ more)
      → x.position ≡ i.current
  Pending-first x more p = elim (p.held i.current (i, popped.was, here refl)) [
    | inl was ↦ absurd (new was)
    | inr (e, j, at) ↦ of_event e j at
  ]
    where
      of_event :
          (e : StoredEvent) → In e (x ∷ more) → e.position ≡ i.current → x.position ≡ i.current
      of_event e (here is) at = ap (λ (a : StoredEvent). a.position) (sym is) ∙ at
      of_event e (there j) at =
          let before : Ahead reverse x.position e.position =
            All-In (λ b. Ahead reverse x.position b.position) more p.in_order.0 j in
          elim (first-AtOrAhead-events popped p x (here refl)) [
            | inl is ↦ sym is
            | inr ahead ↦ absurd (
                not-Ahead reverse i.current (
                  Ahead-trans reverse i.current x.position i.current ahead
                    (subst (Ahead reverse x.position) at before)))
          ]

  -- It is delivered, and the others are still to come.
  Pending-next :
      (x : StoredEvent) (more : List StoredEvent)
      → Pending reverse fetch last items (x ∷ more)
      → Pending reverse fetch (some i.current) (left_over i rest) more
  Pending-next x more p = record {
    ordered = left_over-IsOrdered popped p.ordered;
    held = λ v h. elim (p.held v (left_over-Has popped p.ordered v h)) [
      | inl was ↦ absurd (before_last v was h)
      | inr (e, j, at) ↦ of_event v e j at
    ];
    covered = λ e j. elim (Has-left_over popped p.ordered e.position (p.covered e (there j))) [
      | inr h ↦ h
      | inl is ↦
          absurd (
            not-Ahead reverse i.current
              (subst (Ahead reverse i.current) (sym is) (after_first e j)))
    ];
    in_order = p.in_order.1;
    later =
        λ e q j is. subst (λ a. Ahead reverse a e.position) (some_injective is) (after_first e j);
    fetched = λ e j. p.fetched e (there j);
  }
    where
      first : x.position ≡ i.current
      first = Pending-first x more p

      after_first : (e : StoredEvent) → In e more → Ahead reverse i.current e.position
      after_first e j =
          subst (λ a. Ahead reverse a e.position) first
            (All-In (λ b. Ahead reverse x.position b.position) more p.in_order.0 j)

      before_last : (v : Versionstamp) → last ≡ some v → Has (left_over i rest) v → ⊥
      before_last v was h =
          let ahead : Ahead reverse v i.current =
            subst (Ahead reverse v) first (p.later x v (here refl) was) in
          elim (left_over-AtOrAhead popped p.ordered v h) [
            | inl is ↦ not-Ahead reverse v (subst (Ahead reverse v) is ahead)
            | inr back ↦ not-Ahead reverse v (Ahead-trans reverse v i.current v ahead back)
          ]

      of_event :
          (v : Versionstamp) (e : StoredEvent)
          → In e (x ∷ more)
          → e.position ≡ v
          → (some i.current ≡ some v) ⊎ ((e : StoredEvent) × In e more × (e.position ≡ v))
      of_event v e (here is) at =
          inl (ap some (sym first ∙ ap (λ (a : StoredEvent). a.position) (sym is) ∙ at))
      of_event v e (there j) at = inr (e, j, at)

Pending-uncons :
    {reverse : Bool} {fetch : Versionstamp → Result (Option StoredEvent)}
    {last : Option Versionstamp} {items : List RangeIterator} {i : RangeIterator}
    {rest : List RangeIterator} (popped : Popped reverse items i rest) (new : last ≢ some i.current)
    (es : List StoredEvent)
    → Pending reverse fetch last items es
    → (x : StoredEvent) × (more : List StoredEvent) × (es ≡ x ∷ more)
      × (fetch i.current ≡ ok (some x))
      × Pending reverse fetch (some i.current) (left_over i rest) more
Pending-uncons popped new [] p = absurd (Pending-some popped new p)
Pending-uncons {fetch = fetch} popped new (x ∷ more) p = (
  x,
  more,
  refl,
  subst (λ v. fetch v ≡ ok (some x)) (Pending-first popped new x more p) (p.fetched x (here refl)),
  Pending-next popped new x more p,
)

Pending-done :
    {reverse : Bool} {fetch : Versionstamp → Result (Option StoredEvent)}
    {last : Option Versionstamp} (es : List StoredEvent)
    → Pending reverse fetch last [] es
    → es ≡ []
Pending-done [] p = refl
Pending-done (x ∷ more) p = let (i, j, k) = p.covered x (here refl) in elim j [ ]

module _ (heap : Heap) {Y : Type 0} (yield : Y → StoredEvent → Y × Bool)
    (fetch : Versionstamp → Result (Option StoredEvent)) (limit : ℕ) (reverse : Bool)
    (ctx : Context) (queue : IsQueue heap) (goes_on : (k : ℕ) → ctx k ≡ false) where
  pub merge-deliver :
      (fuel : ℕ) (last : Option Versionstamp) (count : ℕ) (y : Y) (items : List RangeIterator)
      (es : List StoredEvent)
      → Pending reverse fetch last items es
      → size items < fuel
      → merge heap yield fetch limit reverse ctx fuel last count y items
        ≡ deliver yield limit count y es
  unfolding deliver merge
  merge-deliver zero last count y items es p enough = absurd (omega (arith, enough))
  merge-deliver (suc fuel) last count y items es p enough =
      elim (Option-cases (heap.pop reverse items)) [
        | inl empty ↦
            let none_left : es ≡ [] = Pending-done es (
              subst (λ j. Pending reverse fetch last j es) (queue.empties reverse items empty) p) in
            rw (merge, empty, none_left) refl
        | inr (top, e) ↦
            let popped : Popped reverse items top.0 top.1 =
              queue.pops reverse items top.0 top.1 e in
            let smaller : size (left_over top.0 top.1) < fuel = omega (
              arith,
              enough,
              popped.sizes,
              size-popped top.0 top.1,
              size-pushed top.0.upcoming top.1,
            ) in
            elim (Bool-cases (is_repeat last top.0.current)) [
              | inl again ↦
                  rw (merge, e, goes_on fuel, again)
                    (merge-deliver fuel last count y (left_over top.0 top.1) es
                      (Pending-repeat popped p (is_repeat-some last top.0.current again)) smaller)
              | inr fresh ↦
                  let (x, more, shape, got, next) =
                    Pending-uncons popped (not_repeat last top.0.current fresh) es p in
                  rw shape (elim (Bool-cases ((yield y x).1)) [
                    | inr full ↦ rw (merge, e, goes_on fuel, fresh, got, full, deliver) refl
                    | inl wants ↦ elim (Bool-cases (limit_reached limit (suc count))) [
                      | inl reached ↦
                          rw (merge, e, goes_on fuel, fresh, got, wants, reached, deliver) refl
                      | inr below ↦
                          rw (merge, e, goes_on fuel, fresh, got, wants, below, deliver)
                            (merge-deliver fuel (some top.0.current) (suc count) (yield y x).0
                              (left_over top.0 top.1) more next smaller)
                    ]
                  ])
            ]
      ]
