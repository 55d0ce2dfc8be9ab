-- ===== src/Fdb/Memory/Assoc.antt =====
-- A map as an association list that ascends by key.
use Prim.Native.Nat.{Ordering}
use fairway.Base.{
  ◌≡◌, refl, ap, subst, sym, Bool, List, [], ◌∷◌, Option, none, some, arith, if◌then◌else◌,
  Bool-cases, In, here, there, All, All-In, Pairwise, filter, inl, inr,
}
use fairway.Base.Order.{Ord, same, same_iff}

module _ {K V : Type 0} ⦃o : Ord K⦄ where
  abbrev pub Before : K × V → K × V → Type 0
  Before a b = o.cmp a.0 b.0 ≡ Ordering.lt

  abbrev pub IsAscending : List (K × V) → Type 0
  IsAscending = Pairwise Before

  abbrev pub find : K → List (K × V) → Option (V)
  find k [] = none
  find k ((j, w) ∷ m) = if same j k then some w else find k m

  abbrev pub put : K → V → List (K × V) → List (K × V)
  put k v [] = (k, v) ∷ []
  put k v ((j, w) ∷ m) = elim (o.cmp k j) [
    | Ordering.lt ↦ (k, v) ∷ (j, w) ∷ m
    | Ordering.eq ↦ (k, v) ∷ m
    | Ordering.gt ↦ (j, w) ∷ put k v m
  ]

  abbrev pub keep_keys : (K → Bool) → List (K × V) → List (K × V)
  keep_keys p = filter (λ e. p e.0)

  pub find-put :
      (k j : K) (v : V) (m : List (K × V))
      → find j (put k v m) ≡ (if same k j then some v else find j m)
  find-put k j v [] = refl
  find-put k j v ((i, w) ∷ m) = ground (
    arith,
    find-put k j v m,
    o.cmp_eq k i,
    o.cmp_eq k j,
    o.cmp_eq i j,
    o.cmp_self i,
    o.cmp_self k,
    o.cmp_self j,
  )

  pub find-keep_keys :
      (p : K → Bool) (j : K) (m : List (K × V))
      → find j (keep_keys p m) ≡ (if p j then find j m else none)
  find-keep_keys p j [] = ground arith
  find-keep_keys p j ((i, w) ∷ m) = ground (arith, find-keep_keys p j m, o.cmp_eq i j)

  All-Before-trans :
      (k i : K) (v w : V) (m : List (K × V))
      → o.cmp k i ≡ Ordering.lt
      → All (Before (i, w)) m
      → All (Before (k, v)) m
  All-Before-trans k i v w [] h a = tt
  All-Before-trans k i v w (e ∷ m) h a =
      (o.cmp_trans k i e.0 h a.0, All-Before-trans k i v w m h a.1)

  All-put :
      (a : K × V) (k : K) (v : V) (m : List (K × V))
      → Before a (k, v)
      → All (Before a) m
      → All (Before a) (put k v m)
  All-put a k v [] h s = (h, tt)
  All-put a k v ((j, w) ∷ m) h s = at (o.cmp k j) refl (All-put a k v m h s.1)
    where
      at :
          (c : Ordering)
          → o.cmp k j ≡ c
          → All (Before a) (put k v m)
          → All (Before a) (put k v ((j, w) ∷ m))
      at Ordering.lt e ih = rw (e, put) (h, s)
      at Ordering.eq e ih = rw (e, put) (h, s.1)
      at Ordering.gt e ih = rw (e, put) (s.0, ih)

  pub put-IsAscending : (k : K) (v : V) (m : List (K × V)) → IsAscending m → IsAscending (put k v m)
  put-IsAscending k v [] s = (tt, tt)
  put-IsAscending k v ((j, w) ∷ m) s = at (o.cmp k j) refl (put-IsAscending k v m s.1)
    where
      at :
          (c : Ordering)
          → o.cmp k j ≡ c
          → IsAscending (put k v m)
          → IsAscending (put k v ((j, w) ∷ m))
      at Ordering.lt e ih = rw (e, put) ((e, All-Before-trans k j v w m e s.0), s)
      at Ordering.eq e ih =
          rw (e, put) (subst (λ i. All (Before (i, v)) m) (sym (o.cmp_eq k j e)) s.0, s.1)
      at Ordering.gt e ih =
          rw (e, put) (All-put (j, w) k v m (ground (arith, o.cmp_flip k j)) s.0, ih)

  pub In-find : (k : K) (v : V) (m : List (K × V)) → find k m ≡ some v → In (k, v) m
  In-find k v [] h = ground arith
  In-find k v ((j, w) ∷ m) h = elim (Bool-cases (same j k)) [
    | inl e ↦ here (ground (arith, (same_iff j k).0 e))
    | inr e ↦ there (In-find k v m (rw e at h))
  ]

  pub find-In : (k : K) (v : V) (m : List (K × V)) → IsAscending m → In (k, v) m → find k m ≡ some v
  find-In k v [] s i = elim i [ ]
  find-In k v ((j, w) ∷ m) s (here e) =
      ground (arith, o.cmp_self j, ap (λ (x : K × V). x.0) e, ap (λ (x : K × V). x.1) e)
  find-In k v ((j, w) ∷ m) s (there i) =
      let apart : o.cmp j k ≡ Ordering.lt = All-In (Before (j, w)) m s.0 i in
      ground (arith, find-In k v m s.1 i)
