-- ===== src/Dcb/Read/Iterators.antt =====
-- The iterators of a query hold the positions of the events that it selects.
use fairway.Base.{
  In-backwards, In-backwards_of, Pairwise-backwards, backwards, ◌<◌, ◌≡◌, refl, sym, subst, ◌∙◌,
  inl, inr, Bool, true, false, ◌||◌, List, [], ◌∷◌, ◌++◌, Option, arith, In, here, there, In-append,
  In-append_left, In-append_right, All, Pairwise, Bool-cases,
}
use fairway.Fdb.{Str, Database, KeyRange}
use fairway.Dcb.Types.{Versionstamp, QueryItem, StoredEvent, ok}
use fairway.Dcb.Index.{new_store}
use fairway.Dcb.Log.{Represents, IsIndexable, selects, selects_any}
use fairway.Dcb.Log.Ranges.{stamps}
use fairway.Dcb.Log.Items.{IsProper, Covers, Covers-item}
use fairway.Dcb.Read.{RangeIterator, range_versionstamps, range_iterators, all_iterators}
use fairway.Dcb.Read.Queue.{
  Ahead, IsOrdered, Has, versionstamps, pushed-cases, pushed-rest, pushed-upcoming,
}

-- The elements of a list in the direction of a read.
abbrev pub directed {ℓ} : {A : Type ℓ} → Bool → List A → List A
directed false xs = xs
directed true xs = backwards xs []

pub In-directed {ℓ} :
    {A : Type ℓ} {a : A} (reverse : Bool) (xs : List A) → In a (directed reverse xs) → In a xs
In-directed false xs i = i
In-directed true xs i = elim (In-backwards xs [] i) [ inl l ↦ l | inr r ↦ elim r [ ] ]

pub In-directed_of {ℓ} :
    {A : Type ℓ} {a : A} (reverse : Bool) (xs : List A) → In a xs → In a (directed reverse xs)
In-directed_of false xs i = i
In-directed_of true xs i = In-backwards_of xs [] (inl i)

pub Pairwise-directed :
    {A : Type 0} (at : A → Versionstamp) (reverse : Bool) (xs : List A)
    → Pairwise (λ a b. at a < at b) xs
    → Pairwise (λ a b. Ahead reverse (at a) (at b)) (directed reverse xs)
Pairwise-directed at false xs h = h
Pairwise-directed at true xs h =
    Pairwise-backwards (λ a b. at a < at b) (λ a b. at b < at a) (λ a b l. l) xs [] h tt
      (λ a b i j. elim i [ ])

module _ (D : Database) (d : D.Db) (log : List StoredEvent) (reverse : Bool) where
  -- The iterators hold the positions of the picked events, each iterator in the direction of the read.
  pub record Gathers (items : List RangeIterator) (picks : StoredEvent → Bool) : Type 0 where
    pub ordered : IsOrdered reverse items
    pub sound :
        (v : Versionstamp)
        → Has items v
        → (e : StoredEvent) × In e log × (picks e ≡ true) × (e.position ≡ v)
    pub complete : (e : StoredEvent) → In e log → picks e ≡ true → Has items e.position

  range_versionstamps-directed :
      (r : KeyRange) → range_versionstamps D d reverse r ≡ directed reverse (stamps D d log r)
  unfolding range_versionstamps
  range_versionstamps-directed r = at reverse
    where
      at : (b : Bool) → range_versionstamps D d b r ≡ directed b (stamps D d log r)
      at false = refl
      at true = refl

  -- An iterator is that of a range,
  range_iterators-In :
      (ranges : List KeyRange) (j : RangeIterator)
      → In j (range_iterators D d reverse ranges)
      → (r : KeyRange) × In r ranges × (versionstamps j ≡ range_versionstamps D d reverse r)
  unfolding range_iterators
  range_iterators-In [] j i = elim i [ ]
  range_iterators-In (r ∷ ranges) j i =
      elim (pushed-cases (range_versionstamps D d reverse r) _ j i) [
        | inr is ↦ (r, here refl, is)
        | inl old ↦ let (q, k, is) = range_iterators-In ranges j old in (q, there k, is)
      ]

  -- and a range that is not empty has one.
  range_iterators-Has :
      (ranges : List KeyRange) (r : KeyRange) (v : Versionstamp)
      → In r ranges
      → In v (range_versionstamps D d reverse r)
      → Has (range_iterators D d reverse ranges) v
  unfolding range_iterators
  range_iterators-Has [] r v i j = elim i [ ]
  range_iterators-Has (x ∷ ranges) r v (here e) j =
      pushed-upcoming (range_versionstamps D d reverse x) _ v
        (subst (λ q. In v (range_versionstamps D d reverse q)) e j)
  range_iterators-Has (x ∷ ranges) r v (there i) j =
      let (it, k, m) = range_iterators-Has ranges r v i j in
      (it, pushed-rest (range_versionstamps D d reverse x) _ it k, m)

  Gathers-ranges :
      (ranges : List KeyRange) (picks : StoredEvent → Bool)
      → Covers D d log ranges picks
      → Gathers (range_iterators D d reverse ranges) picks
  Gathers-ranges ranges picks c = record {
    ordered = λ j i.
        let (r, k, is) = range_iterators-In ranges j i in
        subst (Pairwise (Ahead reverse)) (sym (is ∙ range_versionstamps-directed r))
          (Pairwise-directed (λ v. v) reverse (stamps D d log r) (c.rises r k));
    sound = λ v h.
        let (j, i, m) = h in
        let (r, k, is) = range_iterators-In ranges j i in
        c.sound r v k (
          In-directed reverse (stamps D d log r)
            (subst (In v) (is ∙ range_versionstamps-directed r) m));
    complete = λ e i q.
        let (r, j, k) = c.complete e i q in
        range_iterators-Has ranges r e.position j (
          subst (In e.position) (sym (range_versionstamps-directed r))
            (In-directed_of reverse (stamps D d log r) k));
  }

  Gathers-none :
      (picks : StoredEvent → Bool) → ((e : StoredEvent) → picks e ≡ false) → Gathers [] picks
  Gathers-none picks never = record {
    ordered = λ j i. elim i [ ];
    sound = λ v h. let (j, i, m) = h in elim i [ ];
    complete = λ e i q. cc (never e, q);
  }

  Gathers-append :
      (is js : List RangeIterator) (p q : StoredEvent → Bool)
      → Gathers is p
      → Gathers js q
      → Gathers (is ++ js) (λ e. p e || q e)
  Gathers-append is js p q g h = record {
    ordered = λ j i. elim (In-append is js i) [ inl l ↦ g.ordered j l | inr r ↦ h.ordered j r ];
    sound = λ v m.
        let (j, i, n) = m in
        elim (In-append is js i) [
          | inl l ↦ let (e, k, pe, at) = g.sound v (j, l, n) in (e, k, rw pe refl, at)
          | inr r ↦ let (e, k, qe, at) = h.sound v (j, r, n) in (e, k, ground (arith, qe), at)
        ];
    complete = λ e i pq. elim (Bool-cases (p e)) [
      | inl pe ↦ let (j, k, m) = g.complete e i pe in (j, In-append_left is js k, m)
      | inr pe ↦ let (j, k, m) = h.complete e i (rw pe at pq) in (j, In-append_right is js k, m)
    ];
  }

-- The iterators of a query with proper items are made without an error, and hold the positions of the
-- events that the query selects.
pub all_iterators-Gathers :
    (D : Database) (namespace : Str) (d : D.Db) (log : List StoredEvent)
    (rep : Represents D namespace d log) (indexable : (e : StoredEvent) → In e log → IsIndexable e)
    (ctx_done reverse : Bool) (after : Option Versionstamp) (items : List QueryItem)
    → All IsProper items
    → (its : List RangeIterator) × (all_iterators D
          (new_store namespace)
          d
          ctx_done
          reverse
          items
          after
        ≡ ok its)
      × Gathers D d log reverse its (selects_any items after)
unfolding all_iterators
all_iterators-Gathers D namespace d log rep indexable ctx_done reverse after [] proper =
    ([], refl, Gathers-none D d log reverse _ (λ e. refl))
all_iterators-Gathers D namespace d log rep indexable ctx_done reverse after (item ∷ items) proper =
    let (ranges, built, covers) = Covers-item D namespace d log rep indexable after item proper.0 in
    let (its, made, gathers) =
      all_iterators-Gathers D namespace d log rep indexable ctx_done reverse after items proper.1 in
    (
      range_iterators D d reverse ranges ++ its,
      rw (all_iterators, built, made) refl,
      Gathers-append D d log reverse (range_iterators D d reverse ranges) its (selects item after)
          (selects_any items after)
          (Gathers-ranges D d log reverse ranges (selects item after) covers) gathers,
    )
