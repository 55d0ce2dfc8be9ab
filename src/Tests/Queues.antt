-- ===== src/Tests/Queues.antt =====
-- A priority queue kept as a list, for the reads of the tests: it is a queue in both directions.
use fairway.Base.{
  some_injective, ◌≡◌, refl, sym, subst, Bool, true, false, inl, inr, Bool-cases, List, [], ◌∷◌,
  Option, none, some, arith, if◌then◌else◌, In, here, there,
}
use fairway.Dcb.Read.{RangeIterator, Heap, less, size}
use fairway.Dcb.Read.Queue.{Popped, IsQueue}

-- The item that comes first, and the others.
unfoldable pub select :
    Bool → RangeIterator → List RangeIterator → RangeIterator × List RangeIterator
unfolding less
select reverse i [] = (i, [])
select reverse i (j ∷ js) =
    let found = select reverse j js in
    if less reverse found.0 i then (found.0, i ∷ found.1) else (i, found.0 ∷ found.1)

unfoldable pub pop_first : Bool → List RangeIterator → Option (RangeIterator × List RangeIterator)
unfolding select
pop_first reverse [] = none
pop_first reverse (i ∷ is) = some (select reverse i is)

abbrev pub list_heap : Heap
list_heap = record { pop = pop_first }

less_flip :
    (reverse : Bool) (i j : RangeIterator) → less reverse i j ≡ true → less reverse j i ≡ false
unfolding less
less_flip false i j h = ground (arith, h)
less_flip true i j h = ground (arith, h)

less_trans :
    (reverse : Bool) (i j k : RangeIterator)
    → less reverse j i ≡ false
    → less reverse k j ≡ false
    → less reverse k i ≡ false
unfolding less
less_trans false i j k h g = ground (arith, h, g)
less_trans true i j k h g = ground (arith, h, g)

Popped-one : (reverse : Bool) (i : RangeIterator) → Popped reverse (i ∷ []) i []
Popped-one reverse i = record {
  was = here refl;
  left = λ j k. elim k [ ];
  others = λ j k. elim k [ here e ↦ inl e | there l ↦ elim l [ ] ];
  least = λ j k. elim k [ ];
  sizes = refl;
}

-- The first of the others comes before `i`.
Popped-swap :
    (reverse : Bool) (i : RangeIterator) (js : List RangeIterator) (x : RangeIterator)
    (rest : List RangeIterator)
    → Popped reverse js x rest
    → less reverse x i ≡ true
    → Popped reverse (i ∷ js) x (i ∷ rest)
unfolding size
Popped-swap reverse i js x rest p h = record {
  was = there p.was;
  left = λ j k. elim k [ here e ↦ here e | there l ↦ there (p.left j l) ];
  others = λ j k. elim k [
    | here e ↦ inr (here e)
    | there l ↦ elim (p.others j l) [ inl e ↦ inl e | inr m ↦ inr (there m) ]
  ];
  least = λ j k. elim k [ here e ↦ rw e (less_flip reverse x i h) | there l ↦ p.least j l ];
  sizes = omega (arith, p.sizes);
}

-- It does not.
Popped-keep :
    (reverse : Bool) (i : RangeIterator) (js : List RangeIterator) (x : RangeIterator)
    (rest : List RangeIterator)
    → Popped reverse js x rest
    → less reverse x i ≡ false
    → Popped reverse (i ∷ js) i (x ∷ rest)
unfolding size
Popped-keep reverse i js x rest p h = record {
  was = here refl;
  left = λ j k. elim k [
    | here e ↦ there (subst (λ y. In y js) (sym e) p.was)
    | there l ↦ there (p.left j l)
  ];
  others = λ j k. elim k [
    | here e ↦ inl e
    | there l ↦ elim (p.others j l) [ inl e ↦ inr (here e) | inr m ↦ inr (there m) ]
  ];
  least = λ j k. elim k [ here e ↦ rw e h | there l ↦ less_trans reverse i x j h (p.least j l) ];
  sizes = omega (arith, p.sizes);
}

select-Popped :
    (reverse : Bool) (i : RangeIterator) (js : List RangeIterator)
    → Popped reverse (i ∷ js) (select reverse i js).0 (select reverse i js).1
unfolding select
select-Popped reverse i [] = Popped-one reverse i
select-Popped reverse i (j ∷ js) = elim (Bool-cases (less reverse (select reverse j js).0 i)) [
  | inl t ↦ rw t (Popped-swap reverse i (j ∷ js) _ _ (select-Popped reverse j js) t)
  | inr f ↦ rw f (Popped-keep reverse i (j ∷ js) _ _ (select-Popped reverse j js) f)
]

pub list_heap-IsQueue : IsQueue list_heap
unfolding pop_first
list_heap-IsQueue = record { pops = pops; empties = empties }
  where
    pops :
        (reverse : Bool) (items : List RangeIterator) (i : RangeIterator)
        (rest : List RangeIterator)
        → pop_first reverse items ≡ some (i, rest)
        → Popped reverse items i rest
    pops reverse [] i rest h = cc
    pops reverse (j ∷ js) i rest h =
        subst (λ (p : RangeIterator × List RangeIterator). Popped reverse (j ∷ js) p.0 p.1)
          (some_injective h) (select-Popped reverse j js)

    empties :
        (reverse : Bool) (items : List RangeIterator) → pop_first reverse items ≡ none → items ≡ []
    empties reverse [] h = refl
    empties reverse (j ∷ js) h = cc
