-- ===== src/Base/Order.antt =====
-- Total orders by a three-way comparison, as Go's `bytes.Compare` and `sort.Strings` use them.
use Prim.Native.Nat.{compare, Ordering}
use fairway.Base.{Bool-cases, inl, inr, ℕ, ◌≡◌, refl, Bool, true, false, ◌↔◌, List, [], ◌∷◌, arith}

abbrev pub flip : Ordering → Ordering
flip Ordering.lt = Ordering.gt
flip Ordering.eq = Ordering.eq
flip Ordering.gt = Ordering.lt

pub record Ord {ℓ} (A : Type ℓ) : Type ℓ where
  pub cmp : A → A → Ordering
  pub cmp_self : (a : A) → cmp a a ≡ Ordering.eq
  pub cmp_eq : (a b : A) → cmp a b ≡ Ordering.eq → a ≡ b
  pub cmp_flip : (a b : A) → cmp b a ≡ flip (cmp a b)
  pub cmp_trans :
      (a b c : A) → cmp a b ≡ Ordering.lt → cmp b c ≡ Ordering.lt → cmp a c ≡ Ordering.lt

pub ℕ-self : (a : ℕ) → compare a a ≡ Ordering.eq
ℕ-self a = ground arith

pub ℕ-eq : (a b : ℕ) → compare a b ≡ Ordering.eq → a ≡ b
ℕ-eq a b h = ground arith

pub ℕ-flip : (a b : ℕ) → compare b a ≡ flip (compare a b)
ℕ-flip a b = ground arith

pub ℕ-trans :
    (a b c : ℕ) → compare a b ≡ Ordering.lt → compare b c ≡ Ordering.lt → compare a c ≡ Ordering.lt
ℕ-trans a b c h k = ground arith

instance abbrev pub ℕ_ord : Ord ℕ
ℕ_ord = record {
  cmp = compare;
  cmp_self = ℕ-self;
  cmp_eq = ℕ-eq;
  cmp_flip = ℕ-flip;
  cmp_trans = ℕ-trans;
}

module _ {ℓ} {A : Type ℓ} ⦃o : Ord A⦄ where
  -- Lexicographic.
  abbrev pub cmp_list : List A → List A → Ordering
  cmp_list [] [] = Ordering.eq
  cmp_list [] (y ∷ ys) = Ordering.lt
  cmp_list (x ∷ xs) [] = Ordering.gt
  cmp_list (x ∷ xs) (y ∷ ys) = elim (o.cmp x y) [
    | Ordering.lt ↦ Ordering.lt
    | Ordering.eq ↦ cmp_list xs ys
    | Ordering.gt ↦ Ordering.gt
  ]

  pub list_self : (xs : List A) → cmp_list xs xs ≡ Ordering.eq
  list_self [] = refl
  list_self (x ∷ xs) = rw (o.cmp_self x, cmp_list) (list_self xs)

  pub list-eq : (xs ys : List A) → cmp_list xs ys ≡ Ordering.eq → xs ≡ ys
  list-eq [] [] h = refl
  list-eq [] (y ∷ ys) h = ground arith
  list-eq (x ∷ xs) [] h = ground arith
  list-eq (x ∷ xs) (y ∷ ys) h = ground (arith, o.cmp_eq x y, list-eq xs ys)

  pub list-flip : (xs ys : List A) → cmp_list ys xs ≡ flip (cmp_list xs ys)
  list-flip [] [] = refl
  list-flip [] (y ∷ ys) = refl
  list-flip (x ∷ xs) [] = refl
  list-flip (x ∷ xs) (y ∷ ys) = ground (arith, o.cmp_flip x y, list-flip xs ys)

  pub list_trans :
      (xs ys zs : List A)
      → cmp_list xs ys ≡ Ordering.lt
      → cmp_list ys zs ≡ Ordering.lt
      → cmp_list xs zs ≡ Ordering.lt
  list_trans [] [] zs h k = ground arith
  list_trans [] (y ∷ ys) [] h k = ground arith
  list_trans [] (y ∷ ys) (z ∷ zs) h k = refl
  list_trans (x ∷ xs) [] zs h k = ground arith
  list_trans (x ∷ xs) (y ∷ ys) [] h k = ground arith
  list_trans (x ∷ xs) (y ∷ ys) (z ∷ zs) h k =
      ground
        (arith, o.cmp_trans x y z, o.cmp_eq x y, o.cmp_eq y z, o.cmp_self x, list_trans xs ys zs)

  instance abbrev pub list_ord : Ord (List A)
  list_ord = record {
    cmp = cmp_list;
    cmp_self = list_self;
    cmp_eq = list-eq;
    cmp_flip = list-flip;
    cmp_trans = list_trans;
  }

-- Tests that a comparison makes.
module _ {ℓ} {A : Type ℓ} ⦃o : Ord A⦄ where
  abbrev pub at_most : A → A → Bool
  at_most a b = elim (o.cmp a b) [ Ordering.gt ↦ false | _ ↦ true ]

  abbrev pub same : A → A → Bool
  same a b = elim (o.cmp a b) [ Ordering.eq ↦ true | _ ↦ false ]

  pub same_self : (a : A) → same a a ≡ true
  same_self a = ground (arith, o.cmp_self a)

  pub same_iff : (a b : A) → (same a b ≡ true) ↔ (a ≡ b)
  same_iff a b = (λ h. o.cmp_eq a b (ground arith), λ e. rw e (same_self b))

  pub same_sym : (a b : A) → same a b ≡ same b a
  same_sym a b = elim (Bool-cases (same a b)) [
    | inl t ↦ let e = (same_iff a b).0 t in rw e refl
    | inr f ↦ elim (Bool-cases (same b a)) [
      | inl t ↦ let e = (same_iff b a).0 t in rw e refl
      | inr g ↦ rw (f, g) refl
    ]
  ]

  pub at_most_trans : (a b c : A) → at_most a b ≡ true → at_most b c ≡ true → at_most a c ≡ true
  at_most_trans a b c h k = ground (arith, o.cmp_trans a b c, o.cmp_eq a b, o.cmp_eq b c)

  pub at_most_total : (a b : A) → at_most a b ≡ false → at_most b a ≡ true
  at_most_total a b h = ground (arith, o.cmp_flip a b)

  pub at_most_antisym : (a b : A) → at_most a b ≡ true → at_most b a ≡ true → a ≡ b
  at_most_antisym a b h k = ground (arith, o.cmp_flip a b, o.cmp_eq a b)
