-- ===== src/Base/Lists.antt =====
-- Lists measured by native numbers, membership with its witness kept, and searches by a test.
use Prim.Native.Nat.{ℕ, zero, suc, ◌+◌}
use mathlib.Core.Path.{◌≡◌, refl, ap, subst}
use mathlib.Core.Logic.{◌⊎◌, inl, inr}
use mathlib.Core.Bool.{Bool, true, false, ◌||◌}
use mathlib.Core.List.{List, [], ◌∷◌, ◌++◌, map}
use native.Mathlib.Omega.{arith}
use fairway.Base.Tests.{if◌then◌else◌, Bool-cases}

-- Membership as data: it says where the element stands.
pub data In {ℓ} {A : Type ℓ} (a : A) : List A → Type ℓ where
  here : {x : A} {xs : List A} → a ≡ x → In a (x ∷ xs)
  there : {x : A} {xs : List A} → In a xs → In a (x ∷ xs)

module _ {ℓ} {A : Type ℓ} where
  abbrev pub length : List A → ℕ
  length [] = 0
  length (x ∷ xs) = suc (length xs)

  abbrev pub take : ℕ → List A → List A
  take zero xs = []
  take (suc n) [] = []
  take (suc n) (x ∷ xs) = x ∷ take n xs

  abbrev pub drop : ℕ → List A → List A
  drop zero xs = xs
  drop (suc n) [] = []
  drop (suc n) (x ∷ xs) = drop n xs

  pub length-append : (xs ys : List A) → length (xs ++ ys) ≡ length xs + length ys
  length-append [] ys = omega arith
  length-append (x ∷ xs) ys = omega (arith, length-append xs ys)

  abbrev pub All {κ} : (A → Type κ) → List A → Type κ
  All P [] = Unit {κ}
  All P (x ∷ xs) = P x × All P xs

  abbrev pub any : (A → Bool) → List A → Bool
  any p [] = false
  any p (x ∷ xs) = p x || any p xs

  abbrev pub filter : (A → Bool) → List A → List A
  filter p [] = []
  filter p (x ∷ xs) = if p x then x ∷ filter p xs else filter p xs

  -- Each element stands in the relation to each later one.
  abbrev pub Pairwise : (A → A → Type ℓ) → List A → Type ℓ
  Pairwise R [] = Unit {ℓ}
  Pairwise R (x ∷ xs) = All (R x) xs × Pairwise R xs

  pub In-append_left : {a : A} (xs ys : List A) → In a xs → In a (xs ++ ys)
  In-append_left [] ys i = elim i [ ]
  In-append_left (x ∷ xs) ys (here e) = here e
  In-append_left (x ∷ xs) ys (there i) = there (In-append_left xs ys i)

  pub In-append_right : {a : A} (xs ys : List A) → In a ys → In a (xs ++ ys)
  In-append_right [] ys i = i
  In-append_right (x ∷ xs) ys i = there (In-append_right xs ys i)

  pub In-append : {a : A} (xs ys : List A) → In a (xs ++ ys) → In a xs ⊎ In a ys
  In-append [] ys i = inr i
  In-append (x ∷ xs) ys (here e) = inl (here e)
  In-append (x ∷ xs) ys (there i) = elim (In-append xs ys i) [
    | inl l ↦ inl (there l)
    | inr r ↦ inr r
  ]

  pub All-In {κ} : (P : A → Type κ) {a : A} (xs : List A) → All P xs → In a xs → P a
  All-In P [] h i = elim i [ ]
  All-In P (x ∷ xs) h (here e) = rw e h.0
  All-In P (x ∷ xs) h (there i) = All-In P xs h.1 i

  pub All-of_In {κ} : (P : A → Type κ) (xs : List A) → ((a : A) → In a xs → P a) → All P xs
  All-of_In P [] f = tt
  All-of_In P (x ∷ xs) f = (f x (here refl), All-of_In P xs (λ a i. f a (there i)))

  pub any_of_In : {a : A} (p : A → Bool) (xs : List A) → In a xs → p a ≡ true → any p xs ≡ true
  any_of_In p [] i h = elim i [ ]
  any_of_In p (x ∷ xs) (here e) h = rw (← e, h)
  any_of_In p (x ∷ xs) (there i) h = ground (arith, any_of_In p xs i h)

  pub In-of_any : (p : A → Bool) (xs : List A) → any p xs ≡ true → (a : A) × In a xs × (p a ≡ true)
  In-of_any p [] h = ground arith
  In-of_any p (x ∷ xs) h = elim (Bool-cases (p x)) [
    | inl e ↦ (x, here refl, e)
    | inr e ↦ let (a, i, t) = In-of_any p xs (ground arith) in (a, there i, t)
  ]

  pub any-append : (p : A → Bool) (xs ys : List A) → any p (xs ++ ys) ≡ (any p xs || any p ys)
  any-append p [] ys = refl
  any-append p (x ∷ xs) ys = ground (arith, any-append p xs ys)

  pub In-filter : {a : A} (p : A → Bool) (xs : List A) → In a (filter p xs) → In a xs × (p a ≡ true)
  In-filter p [] i = elim i [ ]
  In-filter p (x ∷ xs) i = elim (Bool-cases (p x)) [
    | inl e ↦ elim (rw e at i) [
      | here eq ↦ (here eq, rw eq e)
      | there later ↦ let (j, t) = In-filter p xs later in (there j, t)
    ]
    | inr e ↦ let (j, t) = In-filter p xs (rw e at i) in (there j, t)
  ]

  pub In-filter_of :
      {a : A} (p : A → Bool) (xs : List A) → In a xs → p a ≡ true → In a (filter p xs)
  In-filter_of p [] i t = elim i [ ]
  In-filter_of p (x ∷ xs) (here e) t = rw (rw e at t) (here e)
  In-filter_of p (x ∷ xs) (there i) t = elim (Bool-cases (p x)) [
    | inl e ↦ rw e (there (In-filter_of p xs i t))
    | inr e ↦ rw e (In-filter_of p xs i t)
  ]

module _ {ℓ κ} {A : Type ℓ} {B : Type κ} where
  pub In-map : {b : B} (f : A → B) (xs : List A) → In b (map f xs) → (a : A) × In a xs × (b ≡ f a)
  In-map f [] i = elim i [ ]
  In-map f (x ∷ xs) (here e) = (x, here refl, e)
  In-map f (x ∷ xs) (there i) = let (a, j, e) = In-map f xs i in (a, there j, e)

  pub In-map_of : {a : A} (f : A → B) (xs : List A) → In a xs → In (f a) (map f xs)
  In-map_of f [] i = elim i [ ]
  In-map_of f (x ∷ xs) (here e) = here (ap f e)
  In-map_of f (x ∷ xs) (there i) = there (In-map_of f xs i)

  abbrev pub concat_map : (A → List B) → List A → List B
  concat_map f [] = []
  concat_map f (x ∷ xs) = f x ++ concat_map f xs

  pub In-concat_map :
      {b : B} (f : A → List B) (xs : List A)
      → In b (concat_map f xs)
      → (a : A) × In a xs × In b (f a)
  In-concat_map f [] i = elim i [ ]
  In-concat_map f (x ∷ xs) i = elim (In-append (f x) (concat_map f xs) i) [
    | inl h ↦ (x, here refl, h)
    | inr h ↦ let (a, j, k) = In-concat_map f xs h in (a, there j, k)
  ]

  pub In-concat_map_of :
      {a : A} {b : B} (f : A → List B) (xs : List A) → In a xs → In b (f a) → In b (concat_map f xs)
  In-concat_map_of f [] i h = elim i [ ]
  In-concat_map_of {b = b} f (x ∷ xs) (here e) h =
      In-append_left (f x) (concat_map f xs) (subst (λ y. In b (f y)) e h)
  In-concat_map_of f (x ∷ xs) (there i) h =
      In-append_right (f x) (concat_map f xs) (In-concat_map_of f xs i h)
