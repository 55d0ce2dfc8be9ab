-- ===== src/Dcb/Subsets/Cover.antt =====
-- How a query's tag path is found among the paths of an event: the sorted tags of the query are a
-- sublist of the event's sorted tags exactly when the event has all of them.
use fairway.Base.{
  ◌≡◌, ◌≢◌, ◌↔◌, refl, sym, subst, ◌∙◌, inl, inr, List, [], ◌∷◌, Bool-cases, In, here, there, All,
  All-In, All-of_In,
}
use fairway.Base.Order.{ℕ_ord, list_ord, at_most_antisym, same, same_iff}
use fairway.Base.Sort.{sort, IsSorted, sort-IsSorted, In-sort, In-sort_of, Distinct, sort-Distinct}
use fairway.Fdb.{Str}
use fairway.Dcb.Subsets.{sort_tags, Chosen, done, keep, leave}

pub Chosen-In : {a : Str} {s ts : List Str} → Chosen s ts → In a s → In a ts
Chosen-In done i = i
Chosen-In (keep c) (here e) = here e
Chosen-In (keep c) (there i) = there (Chosen-In c i)
Chosen-In (leave c) i = there (Chosen-In c i)

nothing-Chosen : (ts : List Str) → Chosen [] ts
nothing-Chosen [] = done
nothing-Chosen (t ∷ ts) = leave (nothing-Chosen ts)

In-tail : {a x : Str} {xs : List Str} → a ≢ x → In a (x ∷ xs) → In a xs
In-tail ne (here e) = absurd (ne e)
In-tail ne (there i) = i

-- Two sorted lists whose heads each stand in the other have one head.
heads_agree :
    (x y : Str) (xs ys : List Str)
    → IsSorted (x ∷ xs)
    → IsSorted (y ∷ ys)
    → In x ys
    → In y xs
    → x ≡ y
heads_agree x y xs ys sx sy i j = at_most_antisym x y (All-In _ xs sx.0 j) (All-In _ ys sy.0 i)

Chosen-of_In :
    (xs ys : List Str)
    → IsSorted xs
    → Distinct xs
    → IsSorted ys
    → ((a : Str) → In a xs → In a ys)
    → Chosen xs ys
Chosen-of_In [] ys sx d sy h = nothing-Chosen ys
Chosen-of_In (x ∷ xs) [] sx d sy h = elim (h x (here refl)) [ ]
Chosen-of_In (x ∷ xs) (y ∷ ys) sx d sy h = elim (Bool-cases (same x y)) [
  | inl e ↦
      let eq : x ≡ y = (same_iff x y).0 e in
      subst (λ z. Chosen (x ∷ xs) (z ∷ ys)) eq
        (keep (
          Chosen-of_In xs ys sx.1 d.1 sy.1
            (λ a i. In-tail (λ p. All-In _ xs d.0 i (eq ∙ sym p)) (h a (there i)))))
  | inr e ↦
      let ne : x ≢ y = λ p. cc (e, (same_iff x y).1 p) in
      let later : In x ys = In-tail ne (h x (here refl)) in
      leave (
        Chosen-of_In (x ∷ xs) ys sx d sy.1 (λ a i.
          In-tail
            (λ p. ne (
              heads_agree x y xs ys sx sy later
                (In-tail (λ q. ne (sym q)) (subst (λ z. In z (x ∷ xs)) p i))))
            (h a i)))
]

-- For a query without repeated tags.
pub Chosen-sort_iff :
    (query tags : List Str)
    → Distinct query
    → Chosen (sort_tags query) (sort_tags tags) ↔ All (λ t. In t tags) query
unfolding sort_tags
Chosen-sort_iff query tags d = (
  λ c. All-of_In (λ t. In t tags) query (λ a i. In-sort tags (Chosen-In c (In-sort_of query i))),
  λ h.
      Chosen-of_In (sort query) (sort tags) (sort-IsSorted query) (sort-Distinct query d)
        (sort-IsSorted tags)
        (λ a i. In-sort_of tags (All-In (λ t. In t tags) query h (In-sort query i))),
)
