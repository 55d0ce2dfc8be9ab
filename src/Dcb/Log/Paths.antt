-- ===== src/Dcb/Log/Paths.antt =====
-- What the keys of the index say of their event, read from the elements of the key.
use fairway.Base.{◌≡◌, ◌≢◌, refl, List, [], ◌∷◌, ◌++◌, map, some, All}
use fairway.Fdb.{Str, Tuple, Element, Stamp, text, stamp}
use fairway.Dcb.Index.{events_in_tag_subspace, type_of_key}

abbrev pub IsPlain : List Str → Type 0
IsPlain = All (λ t. t ≢ events_in_tag_subspace)

text-injective : {a b : Str} → text a ≡ text b → a ≡ b
text-injective h = cc

head_eq {ℓ} : {A : Type ℓ} {a b : A} {xs ys : List A} → a ∷ xs ≡ b ∷ ys → (a ≡ b) × (xs ≡ ys)
head_eq h = (cc, cc)

-- A tag path of an event, seen beneath the path of a query's tags and types.
pub path_unique :
    (subset query : List Str) (event_type : Str) (vs : Stamp) (u : Str) (r : Tuple)
    → IsPlain subset
    → map text subset ++ text events_in_tag_subspace ∷ text event_type ∷ stamp vs ∷ []
      ≡ map text query ++ text events_in_tag_subspace ∷ text u ∷ r
    → (subset ≡ query) × (u ≡ event_type) × (r ≡ stamp vs ∷ [])
path_unique [] [] ty vs u r p h = (refl, cc, cc)
path_unique [] (t ∷ []) ty vs u r p h = cc
path_unique [] (t ∷ q ∷ []) ty vs u r p h = cc
path_unique [] (t ∷ q ∷ w ∷ query) ty vs u r p h = cc
path_unique (s ∷ subset) [] ty vs u r p h = absurd (p.0 (text-injective (head_eq h).0))
path_unique (s ∷ subset) (t ∷ query) ty vs u r p h =
    let (same_subset, same_type, same_rest) =
      path_unique subset query ty vs u r p.1 (head_eq h).1 in
    (cc same_subset, same_type, same_rest)

pub append-cancel_left {ℓ} : {A : Type ℓ} (p xs ys : List A) → p ++ xs ≡ p ++ ys → xs ≡ ys
append-cancel_left [] xs ys h = h
append-cancel_left (x ∷ p) xs ys h = append-cancel_left p xs ys (head_eq h).1

-- The last element but one of a tag key is the type.
pub type_of_key-append :
    (p : Tuple) (t : Str) (y : Element) → type_of_key (p ++ text t ∷ y ∷ []) ≡ some t
unfolding type_of_key
type_of_key-append [] t y = refl
type_of_key-append (x ∷ []) t y = refl
type_of_key-append (x ∷ z ∷ []) t y = refl
type_of_key-append (x ∷ z ∷ w ∷ p) t y = type_of_key-append (z ∷ w ∷ p) t y
