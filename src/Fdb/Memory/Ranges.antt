-- ===== src/Fdb/Memory/Ranges.antt =====
-- The order of keys in the instance, and the laws of its ranges.
use Prim.Native.Nat.{Ordering}
use mathlib.Core.List.{append-nil}
use fairway.Base.{ℕ, ◌≡◌, refl, ◌∙◌, Bool, true, false, ◌&&◌, ◌||◌, [], ◌∷◌, ◌++◌, arith, leb, ltb}
use fairway.Base.Order.{Ord, ℕ_ord, list_ord, same, at_most}
use fairway.Fdb.Tuples.{
  Tuple, Element, Stamp, stamp, int, element_ord, Key, packed, suffixed, KeyRange, Beneath,
  stamp_ltb,
}

instance abbrev pub tuple_ord : Ord Tuple
tuple_ord = list_ord

unfoldable pub below : Tuple → Tuple → Bool
below a b = elim (tuple_ord.cmp a b) [ Ordering.lt ↦ true | _ ↦ false ]

unfoldable pub is_prefix : Tuple → Tuple → Bool
is_prefix [] t = true
is_prefix (x ∷ p) [] = false
is_prefix (x ∷ p) (y ∷ t) = same x y && is_prefix p t

unfoldable pub starts : Key → Tuple → Bool
unfolding below
starts (packed b) t = at_most b t
starts (suffixed b n) t = below b t

unfoldable pub stops : Tuple → Key → Bool
unfolding below is_prefix
stops t (packed e) = below t e
stops t (suffixed e n) = at_most t e || is_prefix e t

cmp-append_left : (p a b : Tuple) → tuple_ord.cmp (p ++ a) (p ++ b) ≡ tuple_ord.cmp a b
cmp-append_left [] a b = refl
cmp-append_left (x ∷ p) a b = ground (arith, cmp-append_left p a b, element_ord.cmp_self x)

below-append_left : (p a b : Tuple) → below (p ++ a) (p ++ b) ≡ below a b
unfolding below
below-append_left p a b = ground (arith, cmp-append_left p a b)

is_prefix-append : (p t : Tuple) → is_prefix p t ≡ true → (r : Tuple) × (t ≡ p ++ r)
unfolding is_prefix
is_prefix-append [] t h = (t, refl)
is_prefix-append (x ∷ p) [] h = ground arith
is_prefix-append (x ∷ p) (y ∷ t) h =
    let (r, e) = is_prefix-append p t (ground arith) in
    let same_head : x ≡ y = element_ord.cmp_eq x y (ground arith) in (r, rw (same_head, e) refl)

is_prefix_self : (p r : Tuple) → is_prefix p (p ++ r) ≡ true
unfolding is_prefix
is_prefix_self [] r = refl
is_prefix_self (x ∷ p) r = ground (arith, is_prefix_self p r, element_ord.cmp_self x)

not_below_self : (p t : Tuple) → below p t ≡ true → at_most t p ≡ false
unfolding below
not_below_self p t h = ground (arith, tuple_ord.cmp_flip p t)

beneath : (p t : Tuple) → below p t ≡ true → is_prefix p t ≡ true → Beneath p t
unfolding below
beneath p t h k = at (is_prefix-append p t k).0 (is_prefix-append p t k).1
  where
    at : (r : Tuple) → t ≡ p ++ r → Beneath p t
    at [] e = cc (rw (e, append-nil p) at h, tuple_ord.cmp_self p)
    at (x ∷ r) e = (x, r, e)

below-append : (p r : Tuple) (x : Element) → below p (p ++ (x ∷ r)) ≡ true
unfolding below
below-append [] r x = refl
below-append (y ∷ p) r x = ground (arith, below-append p r x, element_ord.cmp_self y)

abbrev pub range_keys : Tuple → KeyRange
range_keys p = record { begin = suffixed p 0; end = suffixed p 0xff }

unfoldable pub within : KeyRange → Tuple → Bool
unfolding starts stops
within r t = starts r.begin t && stops t r.end

pub within_sound :
    (p t : Tuple) → starts (suffixed p 0) t ≡ true → stops t (suffixed p 0xff) ≡ true → Beneath p t
unfolding starts stops
within_sound p t b e = beneath p t b (ground (arith, not_below_self p t b))

pub within_complete :
    (p t : Tuple)
    → Beneath p t
    → (starts (suffixed p 0) t ≡ true) × (stops t (suffixed p 0xff) ≡ true)
unfolding starts stops
within_complete p t (x, r, e) = rw e (below-append p r x, ground (arith, is_prefix_self p (x ∷ r)))

pub after-stamp :
    (p : Tuple) (a b : Stamp)
    → starts (suffixed (p ++ stamp a ∷ []) 0) (p ++ stamp b ∷ []) ≡ stamp_ltb a b
unfolding starts
after-stamp p a b = below-append_left p (stamp a ∷ []) (stamp b ∷ []) ∙ unfold below in ground arith

below_trans : (a b c : Tuple) → below a b ≡ true → below b c ≡ true → below a c ≡ true
unfolding below
below_trans a b c h k = ground (arith, tuple_ord.cmp_trans a b c)

pub after-within :
    (p t : Tuple) (a : Stamp)
    → starts (suffixed (p ++ stamp a ∷ []) 0) t ≡ true
    → stops t (suffixed p 0xff) ≡ true
    → Beneath p t
unfolding starts
after-within p t a b e =
    within_sound p t (below_trans p (p ++ stamp a ∷ []) t (below-append p [] (stamp a)) b) e

pub int-starts :
    (p r : Tuple) (a b : ℕ) → starts (packed (p ++ int a ∷ [])) (p ++ int b ∷ r) ≡ leb a b
unfolding starts
int-starts p r a b = rw (at_most, cmp-append_left p (int a ∷ []) (int b ∷ r)) (rest r)
  where
    rest : (r : Tuple) → at_most (int a ∷ []) (int b ∷ r) ≡ leb a b
    rest [] = ground arith
    rest (x ∷ r) = ground arith

pub int-stops :
    (p r : Tuple) (a b : ℕ) → stops (p ++ int b ∷ r) (packed (p ++ int a ∷ [])) ≡ ltb b a
unfolding stops
int-stops p r a b = below-append_left p (int b ∷ r) (int a ∷ []) ∙ rest r
  where
    rest : (r : Tuple) → below (int b ∷ r) (int a ∷ []) ≡ ltb b a
    rest [] = unfold below in ground arith
    rest (x ∷ r) = unfold below in ground arith
