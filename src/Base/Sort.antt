-- ===== src/Base/Sort.antt =====
-- Sorting under a total order, as Go's `sort.Strings` does it on a copy of its argument.
use fairway.Base.{
  suc, ◌≡◌, refl, subst, sym, true, ◌⊎◌, inl, inr, List, [], ◌∷◌, arith, if◌then◌else◌, Bool-cases,
  In, here, there, All, All-In, All-of_In, ◌≢◌, length,
}
use fairway.Base.Order.{Ord, at_most, at_most_trans, at_most_total}

module _ {ℓ} {A : Type ℓ} ⦃o : Ord A⦄ where
  pub insert : A → List A → List A
  insert x [] = x ∷ []
  insert x (y ∷ ys) = if at_most x y then x ∷ y ∷ ys else y ∷ insert x ys

  unfoldable pub sort : List A → List A
  unfolding insert
  sort [] = []
  sort (x ∷ xs) = insert x (sort xs)

  pub length-insert : (x : A) (xs : List A) → length (insert x xs) ≡ suc (length xs)
  unfolding insert
  length-insert x [] = refl
  length-insert x (y ∷ ys) = ground (arith, length-insert x ys)

  pub length-sort : (xs : List A) → length (sort xs) ≡ length xs
  unfolding sort
  length-sort [] = refl
  length-sort (x ∷ xs) = ground (arith, length-insert x (sort xs), length-sort xs)

  insert-In_self : (x : A) (xs : List A) → In x (insert x xs)
  unfolding insert
  insert-In_self x [] = here refl
  insert-In_self x (y ∷ ys) = elim (Bool-cases (at_most x y)) [
    | inl e ↦ rw (e, insert) (here refl)
    | inr e ↦ rw (e, insert) (there (insert-In_self x ys))
  ]

  insert-In_old : {a : A} (x : A) (xs : List A) → In a xs → In a (insert x xs)
  unfolding insert
  insert-In_old x [] i = elim i [ ]
  insert-In_old x (y ∷ ys) i = elim (Bool-cases (at_most x y)) [
    | inl e ↦ rw (e, insert) (there i)
    | inr e ↦ rw (e, insert) (elim i [ here h ↦ here h | there j ↦ there (insert-In_old x ys j) ])
  ]

  insert-In : {a : A} (x : A) (xs : List A) → In a (insert x xs) → (a ≡ x) ⊎ In a xs
  unfolding insert
  insert-In x [] i = elim i [ here h ↦ inl h | there j ↦ elim j [ ] ]
  insert-In x (y ∷ ys) i = elim (Bool-cases (at_most x y)) [
    | inl e ↦ elim (rw (e, insert) at i) [ here h ↦ inl h | there j ↦ inr j ]
    | inr e ↦ elim (rw (e, insert) at i) [
      | here h ↦ inr (here h)
      | there j ↦ elim (insert-In x ys j) [ inl h ↦ inl h | inr k ↦ inr (there k) ]
    ]
  ]

  pub In-sort : {a : A} (xs : List A) → In a (sort xs) → In a xs
  unfolding sort
  In-sort [] i = elim i [ ]
  In-sort (x ∷ xs) i = elim (insert-In x (sort xs) i) [
    | inl e ↦ here e
    | inr j ↦ there (In-sort xs j)
  ]

  pub In-sort_of : {a : A} (xs : List A) → In a xs → In a (sort xs)
  unfolding sort
  In-sort_of [] i = elim i [ ]
  In-sort_of (x ∷ xs) (here e) =
      subst (λ y. In y (insert x (sort xs))) (sym e) (insert-In_self x (sort xs))
  In-sort_of (x ∷ xs) (there i) = insert-In_old x (sort xs) (In-sort_of xs i)

  abbrev pub IsSorted : List A → Type 0
  IsSorted [] = Unit
  IsSorted (x ∷ xs) = All (λ y. at_most x y ≡ true) xs × IsSorted xs

  All-insert {κ} : (P : A → Type κ) (x : A) (xs : List A) → P x → All P xs → All P (insert x xs)
  unfolding insert
  All-insert P x [] h k = (h, tt)
  All-insert P x (y ∷ ys) h k = elim (Bool-cases (at_most x y)) [
    | inl e ↦ rw (e, insert) (h, k)
    | inr e ↦ rw (e, insert) (k.0, All-insert P x ys h k.1)
  ]

  All-at_most :
      (x y : A) (ys : List A)
      → at_most x y ≡ true
      → All (λ z. at_most y z ≡ true) ys
      → All (λ z. at_most x z ≡ true) ys
  All-at_most x y [] h k = tt
  All-at_most x y (z ∷ zs) h k = (at_most_trans x y z h k.0, All-at_most x y zs h k.1)

  insert-IsSorted : (x : A) (xs : List A) → IsSorted xs → IsSorted (insert x xs)
  unfolding insert
  insert-IsSorted x [] s = (tt, tt)
  insert-IsSorted x (y ∷ ys) s = elim (Bool-cases (at_most x y)) [
    | inl e ↦ rw (e, insert) ((e, All-at_most x y ys e s.0), s)
    | inr e ↦ rw (e, insert) (All-insert _ x ys (at_most_total x y e) s.0, insert-IsSorted x ys s.1)
  ]

  pub sort-IsSorted : (xs : List A) → IsSorted (sort xs)
  unfolding sort
  sort-IsSorted [] = tt
  sort-IsSorted (x ∷ xs) = insert-IsSorted x (sort xs) (sort-IsSorted xs)

  abbrev pub Distinct : List A → Type ℓ
  Distinct [] = Unit
  Distinct (x ∷ xs) = All (λ y. x ≢ y) xs × Distinct xs

  insert-Distinct :
      (x : A) (xs : List A) → All (λ y. x ≢ y) xs → Distinct xs → Distinct (insert x xs)
  unfolding insert
  insert-Distinct x [] h d = (tt, tt)
  insert-Distinct x (y ∷ ys) h d = elim (Bool-cases (at_most x y)) [
    | inl e ↦ rw (e, insert) (h, d)
    | inr e ↦
        rw (e, insert)
          (All-insert (λ z. y ≢ z) x ys (λ p. h.0 (sym p)) d.0, insert-Distinct x ys h.1 d.1)
  ]

  pub sort-Distinct : (xs : List A) → Distinct xs → Distinct (sort xs)
  unfolding sort
  sort-Distinct [] d = tt
  sort-Distinct (x ∷ xs) d =
      insert-Distinct x (sort xs)
        (All-of_In (λ y. x ≢ y) (sort xs) (λ a i. All-In (λ y. x ≢ y) xs d.0 (In-sort xs i)))
        (sort-Distinct xs d.1)
