-- ===== src/Dcb/Log/Rows.antt =====
-- Ranges of the index: which keys of one subspace a range holds, and when it holds one.
use fairway.Base.{
  ℕ, ◌≡◌, ◌↔◌, refl, sym, ap, ◌∙◌, true, ◌⊎◌, inl, inr, List, [], ◌∷◌, ◌++◌, Option, none, some,
  arith, In, here, there, Bool-cases, ltb, any_of_In, In-of_any, All, &&_true,
}
use fairway.Base.Order.{ℕ_ord, list_ord, same, same_iff, same_self}
use fairway.Fdb.{Str, Tuple, stamp, stamp_ltb, Database, KeyRange, Beneath}
use fairway.Dcb.Types.{Versionstamp, to_stamp, has}
use fairway.Dcb.Index.{range_of, collect_types, type_of_key}
use fairway.Dcb.Append.{some_row}
use fairway.Dcb.Log.{is_after, has_all}

-- Comparing packed versionstamps is comparing the twelve bytes.
pub stamp_ltb-to_stamp : (p q : Versionstamp) → stamp_ltb (to_stamp p) (to_stamp q) ≡ ltb p q
stamp_ltb-to_stamp p q = ground arith

pub has-In : (xs : List Str) (t : Str) → (has xs t ≡ true) ↔ In t xs
has-In xs t = (sound, λ i. any_of_In (same t) xs i (same_self t))
  where
    sound : has xs t ≡ true → In t xs
    sound h =
        let (a, i, e) = In-of_any (same t) xs h in let ta : t ≡ a = (same_iff t a).0 e in rw ta i

pub has_all_iff : (xs tags : List Str) → (has_all xs tags ≡ true) ↔ All (λ t. In t tags) xs
has_all_iff [] tags = (λ h. tt, λ h. refl)
has_all_iff (x ∷ xs) tags = (
  λ h. let (a, b) = &&_true h in ((has-In tags x).0 a, (has_all_iff xs tags).0 b),
  λ h. rw ((has-In tags x).1 h.0, (has_all_iff xs tags).1 h.1) refl,
)

-- A type that a key of the scan names is collected, unless it was seen before.
pub collect_types-In :
    (rows : List (Tuple × List ℕ)) (seen : List Str) (k : Tuple) (v : List ℕ) (t : Str)
    → In (k, v) rows
    → type_of_key k ≡ some t
    → In t (collect_types rows seen) ⊎ (has seen t ≡ true)
unfolding collect_types
collect_types-In [] seen k v t i h = elim i [ ]
collect_types-In ((j, w) ∷ rows) seen k v t (here e) h =
    let named : type_of_key j ≡ some t =
      ap type_of_key (ap (λ (p : Tuple × List ℕ). p.0) (sym e)) ∙ h in
    elim (Bool-cases (has seen t)) [
      | inl old ↦ inr old
      | inr new ↦ inl (rw (named, collect_types, new) (here refl))
    ]
collect_types-In ((j, w) ∷ rows) seen k v t (there i) h =
    at (type_of_key j) refl (λ s. collect_types-In rows s k v t i h)
  where
    Goal : Type 0
    Goal = In t (collect_types ((j, w) ∷ rows) seen) ⊎ (has seen t ≡ true)

    at :
        (o : Option Str)
        → type_of_key j ≡ o
        → ((s : List Str) → In t (collect_types rows s) ⊎ (has s t ≡ true))
        → In t (collect_types ((j, w) ∷ rows) seen) ⊎ (has seen t ≡ true)
    at none e ih = rw (e, collect_types) (ih seen)
    at (some u) e ih = elim (Bool-cases (has seen u)) [
      | inl old ↦ rw (e, collect_types, old) (ih seen)
      | inr new ↦
          rw (e, collect_types, new)
            (elim (ih (u ∷ seen)) [
              | inl found ↦ inl (there found)
              | inr was ↦ elim (Bool-cases (same t u)) [
                | inl is ↦ inl (here ((same_iff t u).0 is))
                | inr not ↦ inr (rw not at was)
              ]
            ])
    ]

module _ (D : Database) where
  open D use {
    Db, get, scan, starts, stops, within_sound, within_complete, after_stamp, after_within,
    scan_complete,
  }

  pub some_row-In :
      (d : Db) (r : KeyRange)
      → some_row D d r ≡ true
      → (k : Tuple) × (v : List ℕ) × In (k, v) (scan d r)
  unfolding some_row
  some_row-In d r h = at (scan d r) refl
    where
      at :
          (rows : List (Tuple × List ℕ))
          → scan d r ≡ rows
          → (k : Tuple) × (v : List ℕ) × In (k, v) (scan d r)
      at [] e = cc (rw (e, some_row) at h)
      at ((k, v) ∷ rows) e = (k, v, rw e (here refl))

  pub In-some_row :
      (d : Db) (r : KeyRange) (k : Tuple) (v : List ℕ)
      → In (k, v) (scan d r)
      → some_row D d r ≡ true
  unfolding some_row
  In-some_row d r k v i = at (scan d r) refl
    where
      at : (rows : List (Tuple × List ℕ)) → scan d r ≡ rows → some_row D d r ≡ true
      at [] e = elim (rw e at i) [ ]
      at (row ∷ rows) e = rw (e, some_row) refl

  pub range_of-Beneath :
      (ss t : Tuple) (after : Option Versionstamp)
      → starts (range_of D ss after).begin t ≡ true
      → stops t (range_of D ss after).end ≡ true
      → Beneath ss t
  unfolding range_of
  range_of-Beneath ss t none b e = within_sound ss t b e
  range_of-Beneath ss t (some v) b e = after_within ss t (to_stamp v) b e

  pub range_of-starts :
      (ss : Tuple) (after : Option Versionstamp) (p : Versionstamp)
      → starts (range_of D ss after).begin (ss ++ stamp (to_stamp p) ∷ []) ≡ is_after after p
  unfolding range_of
  range_of-starts ss none p = (within_complete ss _ (stamp (to_stamp p), [], refl)).0
  range_of-starts ss (some v) p = after_stamp ss (to_stamp v) (to_stamp p) ∙ stamp_ltb-to_stamp v p

  pub range_of-stops :
      (ss : Tuple) (after : Option Versionstamp) (p : Versionstamp)
      → stops (ss ++ stamp (to_stamp p) ∷ []) (range_of D ss after).end ≡ true
  unfolding range_of
  range_of-stops ss none p = (within_complete ss _ (stamp (to_stamp p), [], refl)).1
  range_of-stops ss (some v) p = (within_complete ss _ (stamp (to_stamp p), [], refl)).1

  -- A stored key of the subspace, at a position after the bound, is a row of the range.
  pub row_of_get :
      (d : Db) (ss : Tuple) (after : Option Versionstamp) (p : Versionstamp) (v : List ℕ)
      → get d (ss ++ stamp (to_stamp p) ∷ []) ≡ some v
      → is_after after p ≡ true
      → In (ss ++ stamp (to_stamp p) ∷ [], v) (scan d (range_of D ss after))
  row_of_get d ss after p v g a =
      scan_complete d (range_of D ss after) _ v g (range_of-starts ss after p ∙ a)
        (range_of-stops ss after p)
