-- ===== src/Base/Related.antt =====
-- Lists whose elements stand in a relation to the later ones, and their reversal.
use mathlib.Core.Path.{◌≡◌, refl, sym, ap, subst, ◌∙◌}
use mathlib.Core.Logic.{◌⊎◌, inl, inr}
use mathlib.Core.Bool.{Bool}
use mathlib.Core.List.{List, [], ◌∷◌, ◌++◌, map}
use fairway.Base.Tests.{Bool-cases}
use fairway.Base.Lists.{
  In, here, there, In-append, In-append_left, All, All-In, All-of_In, filter, Pairwise,
}

pub All-filter {ℓ κ} :
    {A : Type ℓ} (P : A → Type κ) (p : A → Bool) (xs : List A) → All P xs → All P (filter p xs)
All-filter P p [] h = tt
All-filter P p (x ∷ xs) h = elim (Bool-cases (p x)) [
  | inl e ↦ rw e (h.0, All-filter P p xs h.1)
  | inr e ↦ rw e (All-filter P p xs h.1)
]

pub Pairwise-filter {ℓ} :
    {A : Type ℓ} (R : A → A → Type ℓ) (p : A → Bool) (xs : List A)
    → Pairwise R xs
    → Pairwise R (filter p xs)
Pairwise-filter R p [] h = tt
Pairwise-filter R p (x ∷ xs) h = elim (Bool-cases (p x)) [
  | inl e ↦ rw e (All-filter (R x) p xs h.0, Pairwise-filter R p xs h.1)
  | inr e ↦ rw e (Pairwise-filter R p xs h.1)
]

-- Two lists that ascend and have the same elements are equal.
module _ {ℓ} {A : Type ℓ} (R : A → A → Type ℓ) (one_way : (a b : A) → R a b → R b a → ⊥) where
  heads_equal :
      (x y : A) (xs ys : List A)
      → All (R x) xs
      → All (R y) ys
      → In x (y ∷ ys)
      → In y (x ∷ xs)
      → x ≡ y
  heads_equal x y xs ys h k (here e) j = e
  heads_equal x y xs ys h k (there i) (here e) = sym e
  heads_equal x y xs ys h k (there i) (there j) =
      absurd (one_way x y (All-In (R x) xs h j) (All-In (R y) ys k i))

  kept_by_tail :
      (a x y : A) (xs ys : List A) → All (R x) xs → x ≡ y → In a xs → In a (y ∷ ys) → In a ys
  kept_by_tail a x y xs ys h e i (there j) = j
  kept_by_tail a x y xs ys h e i (here is) =
      let loop : R x x = subst (R x) (is ∙ sym e) (All-In (R x) xs h i) in
      absurd (one_way x x loop loop)

  pub Pairwise-unique :
      (xs ys : List A)
      → Pairwise R xs
      → Pairwise R ys
      → ((a : A) → In a xs → In a ys)
      → ((a : A) → In a ys → In a xs)
      → xs ≡ ys
  Pairwise-unique [] [] h k f g = refl
  Pairwise-unique [] (y ∷ ys) h k f g = elim (g y (here refl)) [ ]
  Pairwise-unique (x ∷ xs) [] h k f g = elim (f x (here refl)) [ ]
  Pairwise-unique (x ∷ xs) (y ∷ ys) h k f g =
      let same_head : x ≡ y = heads_equal x y xs ys h.0 k.0 (f x (here refl)) (g y (here refl)) in
      rw same_head (
        ap (λ r. y ∷ r)
          (Pairwise-unique xs ys h.1 k.1
            (λ a i. kept_by_tail a x y xs ys h.0 same_head i (f a (there i)))
            λ a i. kept_by_tail a y x ys xs k.0 (sym same_head) i (g a (there i))))

pub Pairwise-append {ℓ} :
    {A : Type ℓ} (R : A → A → Type ℓ) (xs ys : List A)
    → Pairwise R xs
    → Pairwise R ys
    → ((a b : A) → In a xs → In b ys → R a b)
    → Pairwise R (xs ++ ys)
Pairwise-append R [] ys h k m = k
Pairwise-append R (x ∷ xs) ys h k m = (
  All-of_In (R x) (xs ++ ys) λ b i. elim (In-append xs ys i) [
    | inl l ↦ All-In (R x) xs h.0 l
    | inr r ↦ m x b (here refl) r
  ],
  Pairwise-append R xs ys h.1 k (λ a b i j. m a b (there i) j),
)

abbrev pub backwards {ℓ} : {A : Type ℓ} → List A → List A → List A
backwards [] acc = acc
backwards (v ∷ vs) acc = backwards vs (v ∷ acc)

-- Reversing a list keeps its elements and turns its order around.
pub In-backwards {ℓ} :
    {A : Type ℓ} {a : A} (xs acc : List A) → In a (backwards xs acc) → In a xs ⊎ In a acc
In-backwards [] acc i = inr i
In-backwards (x ∷ xs) acc i = elim (In-backwards xs (x ∷ acc) i) [
  | inl l ↦ inl (there l)
  | inr r ↦ elim r [ here e ↦ inl (here e) | there k ↦ inr k ]
]

pub In-backwards_of {ℓ} :
    {A : Type ℓ} {a : A} (xs acc : List A) → In a xs ⊎ In a acc → In a (backwards xs acc)
In-backwards_of [] acc (inl i) = elim i [ ]
In-backwards_of [] acc (inr i) = i
In-backwards_of (x ∷ xs) acc (inl (here e)) = In-backwards_of xs (x ∷ acc) (inr (here e))
In-backwards_of (x ∷ xs) acc (inl (there i)) = In-backwards_of xs (x ∷ acc) (inl i)
In-backwards_of (x ∷ xs) acc (inr i) = In-backwards_of xs (x ∷ acc) (inr (there i))

pub Pairwise-backwards {ℓ} :
    {A : Type ℓ} (R S : A → A → Type ℓ) (turn : (a b : A) → R a b → S b a) (xs acc : List A)
    → Pairwise R xs
    → Pairwise S acc
    → ((a b : A) → In a acc → In b xs → S b a)
    → Pairwise S (backwards xs acc)
Pairwise-backwards R S turn [] acc h k m = k
Pairwise-backwards R S turn (x ∷ xs) acc h k m =
    Pairwise-backwards R S turn xs (x ∷ acc) h.1
      (All-of_In (S x) acc (λ a i. m a x i (here refl)), k)
      λ a b i j. elim i [
        | here e ↦ turn a b (rw e (All-In (R x) xs h.0 j))
        | there l ↦ m a b l (there j)
      ]

-- The images of a map stand in a relation.
module _ {ℓ} {A B : Type ℓ} (S : B → B → Type ℓ) (f : A → B) where
  All-of_map : (P : B → Type ℓ) (xs : List A) → All P (map f xs) → All (λ a. P (f a)) xs
  All-of_map P [] h = tt
  All-of_map P (x ∷ xs) h = (h.0, All-of_map P xs h.1)

  pub Pairwise-of_map : (xs : List A) → Pairwise S (map f xs) → Pairwise (λ a b. S (f a) (f b)) xs
  Pairwise-of_map [] h = tt
  Pairwise-of_map (x ∷ xs) h = (All-of_map (S (f x)) xs h.0, Pairwise-of_map xs h.1)

  module _ (R : A → A → Type ℓ) (each : (a b : A) → R a b → S (f a) (f b)) where
    All-map : (x : A) (xs : List A) → All (R x) xs → All (S (f x)) (map f xs)
    All-map x [] h = tt
    All-map x (y ∷ ys) h = (each x y h.0, All-map x ys h.1)

    pub Pairwise-map : (xs : List A) → Pairwise R xs → Pairwise S (map f xs)
    Pairwise-map [] h = tt
    Pairwise-map (x ∷ xs) h = (All-map x xs h.0, Pairwise-map xs h.1)

pub Pairwise-append_left {ℓ} :
    {A : Type ℓ} (R : A → A → Type ℓ) (xs ys : List A) → Pairwise R (xs ++ ys) → Pairwise R xs
Pairwise-append_left R [] ys h = tt
Pairwise-append_left R (x ∷ xs) ys h = (
  All-of_In (R x) xs (λ a i. All-In (R x) (xs ++ ys) h.0 (In-append_left xs ys i)),
  Pairwise-append_left R xs ys h.1,
)

-- One more element, to which all stand in the relation.
pub Pairwise-append_one {ℓ} :
    {A : Type ℓ} (R : A → A → Type ℓ) (xs : List A) (x : A)
    → Pairwise R xs
    → All (λ a. R a x) xs
    → Pairwise R (xs ++ x ∷ [])
Pairwise-append_one R xs x h all =
    Pairwise-append R xs (x ∷ []) h (tt, tt)
      λ a b i j. elim j [ here e ↦ rw e (All-In (λ y. R y x) xs all i) | there k ↦ elim k [ ] ]
