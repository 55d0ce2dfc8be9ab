-- ===== src/Dcb/Read/Order.antt =====
-- The merge of a forward read yields its events in order, each once.
use fairway.Base.{
  ℕ, zero, suc, ◌≤◌, ◌<◌, ◌≡◌, Bool, true, false, inl, inr, Bool-cases, Option-cases, List, [], ◌∷◌,
  Option, none, some, arith, All, ◌==◌,
}
use fairway.Dcb.Types.{Versionstamp, StoredEvent, Result, ok, Context}
use fairway.Dcb.Read.{RangeIterator, Heap, merge, advance, pushed, is_repeat, limit_reached}
use fairway.Dcb.Read.Merge.{is_repeat-some, Fetched-cases}

abbrev pub collects : List StoredEvent → StoredEvent → List StoredEvent × Bool
collects seen e = (e ∷ seen, true)

-- The newest event first, each above all before it.
abbrev pub InOrder : List StoredEvent → Type 0
InOrder [] = Unit
InOrder (e ∷ es) = All (λ x. x.position < e.position) es × InOrder es

abbrev pub AtLeast : Option Versionstamp → Versionstamp → Type 0
AtLeast none p = Unit
AtLeast (some q) p = q ≤ p

abbrev Within : Option Versionstamp → Versionstamp → Type 0
Within none p = ⊥
Within (some q) p = p ≤ q

abbrev pub Rises : Versionstamp → List Versionstamp → Type 0
Rises v [] = Unit
Rises v (w ∷ ws) = (v < w) × Rises w ws

-- An iterator that reads ascending versionstamps, none below the last that was yielded.
abbrev pub IsSound : Option Versionstamp → RangeIterator → Type 0
IsSound last i = AtLeast last i.current × Rises i.current i.upcoming

-- `Pop` of a forward heap returns an item with the least versionstamp, and leaves the others.
abbrev pub PopsLeast : Heap → Type 1
PopsLeast heap =
    (items : List RangeIterator) (i : RangeIterator) (rest : List RangeIterator)
    → heap.pop false items ≡ some (i, rest)
    → ((P : RangeIterator → Type 0) → All P items → P i × All P rest)
      × All (λ j. i.current ≤ j.current) rest

above :
    (v : Versionstamp) (items : List RangeIterator) (last : Option Versionstamp)
    → All (λ j. v ≤ j.current) items
    → All (IsSound last) items
    → All (IsSound (some v)) items
above v [] last h k = tt
above v (j ∷ items) last h k = ((h.0, k.0.1), above v items last h.1 k.1)

All-pushed :
    (v : Versionstamp) (upcoming : List Versionstamp) (rest : List RangeIterator)
    → Rises v upcoming
    → All (IsSound (some v)) rest
    → All (IsSound (some v)) (pushed (advance upcoming) rest)
unfolding pushed advance
All-pushed v [] rest r h = h
All-pushed v (w ∷ ws) rest r h = ((omega (arith, r.0), r.1), h)

below_new :
    (last : Option Versionstamp) (v : Versionstamp) (seen : List StoredEvent)
    → is_repeat last v ≡ false
    → AtLeast last v
    → All (λ x. Within last x.position) seen
    → All (λ x. x.position < v) seen
unfolding is_repeat
below_new last v [] f a h = tt
below_new none v (x ∷ seen) f a h = absurd h.0
below_new (some q) v (x ∷ seen) f a h =
    let ne : (v == q) ≡ false = f in (ground (arith, ne, a, h.0), below_new (some q) v seen f a h.1)

Within-new :
    (v : Versionstamp) (seen : List StoredEvent)
    → All (λ x. x.position < v) seen
    → All (λ x. Within (some v) x.position) seen
Within-new v [] h = tt
Within-new v (x ∷ seen) h = (omega (arith, h.0), Within-new v seen h.1)

module _ (heap : Heap) (fetch : Versionstamp → Result (Option StoredEvent)) (limit : ℕ)
    (ctx : Context) (law : PopsLeast heap)
    (at_its_position : (v : Versionstamp) (e : StoredEvent)
      → fetch v ≡ ok (some e)
      → e.position ≡ v) where
  merge-ordered :
      (fuel : ℕ) (last : Option Versionstamp) (count : ℕ) (seen : List StoredEvent)
      (items : List RangeIterator)
      → All (IsSound last) items
      → InOrder seen
      → All (λ x. Within last x.position) seen
      → InOrder (merge heap collects fetch limit false ctx fuel last count seen items).0
  unfolding merge
  merge-ordered zero last count seen items sound order within = order
  merge-ordered (suc fuel) last count seen items sound order within =
      elim (Option-cases (heap.pop false items)) [
        | inl empty ↦ rw (merge, empty) order
        | inr (popped, e) ↦
            let (keeps, least) = law items popped.0 popped.1 e in
            let (first, others) = keeps (IsSound last) sound in
            let next : All (IsSound (some popped.0.current))
                (pushed (advance popped.0.upcoming) popped.1) =
              All-pushed popped.0.current popped.0.upcoming popped.1 first.1
                (above popped.0.current popped.1 last least others) in
            elim (Bool-cases (ctx fuel)) [
              | inl stop ↦ rw (merge, e, stop) order
              | inr go ↦ elim (Bool-cases (is_repeat last popped.0.current)) [
                | inl again ↦
                    rw (merge, e, go, again)
                      (merge-ordered fuel last count seen _
                        (rw (is_repeat-some last popped.0.current again) next) order within)
                | inr new ↦ elim (Fetched-cases (fetch popped.0.current)) [
                  | inl (failure, f) ↦ rw (merge, e, go, new, f) order
                  | inr (inl f) ↦ rw (merge, e, go, new, f) order
                  | inr (inr (event, f)) ↦
                      let p : event.position ≡ popped.0.current =
                        at_its_position popped.0.current event f in
                      let under : All (λ x. x.position < popped.0.current) seen =
                        below_new last popped.0.current seen new first.0 within in
                      let order' : InOrder (event ∷ seen) = (rw p under, order) in
                      elim (Bool-cases (limit_reached limit (suc count))) [
                        | inl last_one ↦ rw (merge, e, go, new, f, last_one) order'
                        | inr open_end ↦
                            rw (merge, e, go, new, f, open_end)
                              (merge-ordered fuel (some popped.0.current) (suc count) (event ∷ seen)
                                _ next order'
                                (omega (arith, p), Within-new popped.0.current seen under))
                      ]
                ]
              ]
            ]
      ]

-- From sound iterators (each ascends), with a priority queue whose `Pop` returns an item with the least
-- versionstamp and leaves the others, and a fetch that gives an event of the position asked for, a
-- forward merge yields events in strictly ascending order of their positions, so none twice, whether it
-- runs to its end, reaches the limit, or is aborted.
pub merge-InOrder :
    (heap : Heap) (fetch : Versionstamp → Result (Option StoredEvent)) (limit : ℕ) (ctx : Context)
    (fuel : ℕ) (items : List RangeIterator)
    → PopsLeast heap
    → ((v : Versionstamp) (e : StoredEvent) → fetch v ≡ ok (some e) → e.position ≡ v)
    → All (IsSound none) items
    → InOrder (merge heap collects fetch limit false ctx fuel none 0 [] items).0
merge-InOrder heap fetch limit ctx fuel items law at_its_position sound =
    merge-ordered heap fetch limit ctx law at_its_position fuel none 0 [] items sound tt tt
