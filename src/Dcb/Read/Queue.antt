-- ===== src/Dcb/Read/Queue.antt =====
-- The priority queue of a merge: what `Pop` is documented to do, and what a round leaves in it.
use fairway.Base.{
  ◌<◌, ◌≡◌, refl, sym, ap, subst, ◌⊎◌, inl, inr, Bool, true, false, List, [], ◌∷◌, none, some,
  arith, In, here, there, All, All-In, Pairwise,
}
use fairway.Dcb.Types.{Versionstamp}
use fairway.Dcb.Read.{RangeIterator, Heap, less, advance, pushed, size}

-- `a` comes before `b` in the direction of the read.
abbrev pub Ahead : Bool → Versionstamp → Versionstamp → Type 0
Ahead false a b = a < b
Ahead true a b = b < a

pub Ahead-trans :
    (reverse : Bool) (a b c : Versionstamp)
    → Ahead reverse a b
    → Ahead reverse b c
    → Ahead reverse a c
Ahead-trans false a b c h k = omega arith
Ahead-trans true a b c h k = omega arith

pub not-Ahead : (reverse : Bool) (a : Versionstamp) → Ahead reverse a a → ⊥
not-Ahead false a h = omega arith
not-Ahead true a h = omega arith

abbrev pub AtOrAhead : Bool → Versionstamp → Versionstamp → Type 0
AtOrAhead reverse a b = (a ≡ b) ⊎ Ahead reverse a b

pub AtOrAhead-not-less :
    (reverse : Bool) (i j : RangeIterator)
    → less reverse j i ≡ false
    → AtOrAhead reverse i.current j.current
unfolding less
AtOrAhead-not-less false i j h = ground (arith, h)
AtOrAhead-not-less true i j h = ground (arith, h)

AtOrAhead-trans :
    (reverse : Bool) (a b c : Versionstamp)
    → AtOrAhead reverse a b
    → AtOrAhead reverse b c
    → AtOrAhead reverse a c
AtOrAhead-trans reverse a b c (inl e) k = rw e k
AtOrAhead-trans reverse a b c (inr h) (inl e) = inr (rw (← e) h)
AtOrAhead-trans reverse a b c (inr h) (inr k) = inr (Ahead-trans reverse a b c h k)

first-AtOrAhead :
    (reverse : Bool) (a : Versionstamp) (bs : List Versionstamp)
    → All (Ahead reverse a) bs
    → (v : Versionstamp) → In v (a ∷ bs)
    → AtOrAhead reverse a v
first-AtOrAhead reverse a bs h v (here e) = inl (sym e)
first-AtOrAhead reverse a bs h v (there i) = inr (All-In (Ahead reverse a) bs h i)

-- The versionstamps of an iterator, its current one first.
abbrev pub versionstamps : RangeIterator → List Versionstamp
versionstamps i = i.current ∷ i.upcoming

-- What `Pop` took out of the items, and what it left.
pub record Popped (reverse : Bool) (items : List RangeIterator) (i : RangeIterator)
    (rest : List RangeIterator) : Type 0 where
  pub was : In i items
  pub left : (j : RangeIterator) → In j rest → In j items
  pub others : (j : RangeIterator) → In j items → (j ≡ i) ⊎ In j rest
  pub least : (j : RangeIterator) → In j rest → less reverse j i ≡ false
  pub sizes : size items ≡ size (i ∷ rest)

-- A priority queue: `Pop` fails on no items only, and else takes an item out that no other comes before.
pub record IsQueue (heap : Heap) : Type 0 where
  pub pops :
      (reverse : Bool) (items : List RangeIterator) (i : RangeIterator) (rest : List RangeIterator)
      → heap.pop reverse items ≡ some (i, rest)
      → Popped reverse items i rest
  pub empties :
      (reverse : Bool) (items : List RangeIterator) → heap.pop reverse items ≡ none → items ≡ []

abbrev pub IsOrdered : Bool → List RangeIterator → Type 0
IsOrdered reverse items =
    (i : RangeIterator) → In i items → Pairwise (Ahead reverse) (versionstamps i)

-- Some iterator has the versionstamp.
abbrev pub Has : List RangeIterator → Versionstamp → Type 0
Has items v = (i : RangeIterator) × In i items × In v (versionstamps i)

pub pushed-cases :
    (upcoming : List Versionstamp) (rest : List RangeIterator) (j : RangeIterator)
    → In j (pushed (advance upcoming) rest)
    → In j rest ⊎ (versionstamps j ≡ upcoming)
unfolding pushed advance
pushed-cases [] rest j i = inl i
pushed-cases (v ∷ vs) rest j (here e) = inr (ap versionstamps e)
pushed-cases (v ∷ vs) rest j (there i) = inl i

pub pushed-rest :
    (upcoming : List Versionstamp) (rest : List RangeIterator) (j : RangeIterator)
    → In j rest
    → In j (pushed (advance upcoming) rest)
unfolding pushed advance
pushed-rest [] rest j i = i
pushed-rest (v ∷ vs) rest j i = there i

pub pushed-upcoming :
    (upcoming : List Versionstamp) (rest : List RangeIterator) (v : Versionstamp)
    → In v upcoming
    → Has (pushed (advance upcoming) rest) v
unfolding pushed advance
pushed-upcoming [] rest v i = elim i [ ]
pushed-upcoming (w ∷ ws) rest v i = (record { current = w; upcoming = ws }, here refl, i)

-- The items after a round: the item that was taken out is pushed back unless it is exhausted.
abbrev pub left_over : RangeIterator → List RangeIterator → List RangeIterator
left_over i rest = pushed (advance i.upcoming) rest

module _ {reverse : Bool} {items : List RangeIterator} {i : RangeIterator}
    {rest : List RangeIterator} (popped : Popped reverse items i rest)
    (ordered : IsOrdered reverse items) where
  pub left_over-IsOrdered : IsOrdered reverse (left_over i rest)
  left_over-IsOrdered j k = elim (pushed-cases i.upcoming rest j k) [
    | inl old ↦ ordered j (popped.left j old)
    | inr new ↦ subst (Pairwise (Ahead reverse)) (sym new) (ordered i popped.was).1
  ]

  -- What is left was there, and does not come before the item that was taken out.
  pub left_over-Has : (v : Versionstamp) → Has (left_over i rest) v → Has items v
  left_over-Has v (j, k, m) = elim (pushed-cases i.upcoming rest j k) [
    | inl old ↦ (j, popped.left j old, m)
    | inr new ↦ (i, popped.was, there (rw new at m))
  ]

  pub left_over-AtOrAhead :
      (v : Versionstamp) → Has (left_over i rest) v → AtOrAhead reverse i.current v
  left_over-AtOrAhead v (j, k, m) = elim (pushed-cases i.upcoming rest j k) [
    | inr new ↦
        inr (All-In (Ahead reverse i.current) i.upcoming (ordered i popped.was).0 (rw new at m))
    | inl old ↦
        AtOrAhead-trans reverse i.current j.current v
          (AtOrAhead-not-less reverse i j (popped.least j old))
          (first-AtOrAhead reverse j.current j.upcoming (ordered j (popped.left j old)).0 v m)
  ]

  -- All is left but the current versionstamp of the item.
  pub Has-left_over : (v : Versionstamp) → Has items v → (i.current ≡ v) ⊎ Has (left_over i rest) v
  Has-left_over v (j, k, m) = elim (popped.others j k) [
    | inr old ↦ inr (j, pushed-rest i.upcoming rest j old, m)
    | inl is ↦ of_item (subst (λ x. In v (versionstamps x)) is m)
  ]
    where
      of_item : In v (versionstamps i) → (i.current ≡ v) ⊎ Has (left_over i rest) v
      of_item (here e) = inl (sym e)
      of_item (there n) = inr (pushed-upcoming i.upcoming rest v n)
