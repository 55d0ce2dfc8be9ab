-- ===== src/Dcb/Log/Keys.antt =====
-- The keys that one stored event writes: how they tell events and values apart.
use fairway.Base.{
  ℕ, ◌≡◌, refl, sym, ap, ◌∙◌, List, [], ◌∷◌, ◌++◌, map, Option, none, some, arith, In, here, there,
  In-map, codes,
}
use fairway.Fdb.{Str, Tuple, Element, Stamp, text, stamp, Database}
use fairway.Dcb.Types.{Versionstamp, to_stamp, StoredEvent}
use fairway.Dcb.Subsets.{generate_all_subsets}
use fairway.Dcb.Index.{new_store, events_in_tag_subspace}
use fairway.Dcb.Append.{event_value, tag_key}
use fairway.Dcb.Log.{writes}

pub to_stamp-injective : (p q : Versionstamp) → to_stamp p ≡ to_stamp q → p ≡ q
to_stamp-injective p q h =
    let high = ap (λ (s : Stamp). s.transaction_version) h in
    let low = ap (λ (s : Stamp). s.user_version) h in omega arith

last_of : Tuple → Option Element
last_of [] = none
last_of (x ∷ []) = some x
last_of (x ∷ y ∷ r) = last_of (y ∷ r)

last_of-append : (p : Tuple) (y : Element) (r : Tuple) → last_of (p ++ (y ∷ r)) ≡ last_of (y ∷ r)
unfolding last_of
last_of-append [] y r = refl
last_of-append (x ∷ []) y r = refl
last_of-append (x ∷ z ∷ p) y r = last_of-append (z ∷ p) y r

-- The first letter of the second element: "e", "t" or "g".
unfoldable pub kind : Tuple → ℕ
kind (x ∷ text (c ∷ s) ∷ r) = c
kind _ = 0

module _ (D : Database) (namespace : Str) where
  -- The three kinds of key.
  pub data Written (e : StoredEvent) (k : Tuple) (v : List ℕ) : Type 0 where
    in_events :
        k ≡ (new_store namespace).events ++ stamp (to_stamp e.position) ∷ []
        → v ≡ event_value D (new_store namespace) e.event
        → Written e k v
    in_types :
        k
          ≡ (new_store namespace).by_type
            ++ text e.event.event_type ∷ stamp (to_stamp e.position) ∷ []
        → v ≡ []
        → Written e k v
    in_tags :
        (subset : List Str)
        → In subset (generate_all_subsets e.event.tags)
        → k ≡ tag_key D (new_store namespace) subset e.event.event_type (to_stamp e.position)
        → v ≡ []
        → Written e k v

  pub writes-cases :
      (e : StoredEvent) (k : Tuple) (v : List ℕ) → In (k, v) (writes D namespace e) → Written e k v
  writes-cases e k v (here h) =
      in_events (ap (λ (p : Tuple × List ℕ). p.0) h) (ap (λ (p : Tuple × List ℕ). p.1) h)
  writes-cases e k v (there (here h)) =
      in_types (ap (λ (p : Tuple × List ℕ). p.0) h) (ap (λ (p : Tuple × List ℕ). p.1) h)
  writes-cases e k v (there (there i)) =
      let (subset, j, h) = In-map _ (generate_all_subsets e.event.tags) i in
      in_tags subset j (ap (λ (p : Tuple × List ℕ). p.0) h) (ap (λ (p : Tuple × List ℕ). p.1) h)

  Written-last :
      (e : StoredEvent) (k : Tuple) (v : List ℕ)
      → Written e k v
      → last_of k ≡ some (stamp (to_stamp e.position))
  unfolding last_of
  Written-last e k v (in_events h w) = rw h refl
  Written-last e k v (in_types h w) = rw h refl
  Written-last e k v (in_tags subset i h w) = rw h (
      last_of-append (text namespace ∷ text (codes "g") ∷ map text subset)
        (text events_in_tag_subspace) (text e.event.event_type ∷ stamp (to_stamp e.position) ∷ []))

  -- A key belongs to one position.
  pub writes-position :
      (a b : StoredEvent) (k : Tuple) (v w : List ℕ)
      → In (k, v) (writes D namespace a)
      → In (k, w) (writes D namespace b)
      → a.position ≡ b.position
  writes-position a b k v w i j =
      let left = Written-last a k v (writes-cases a k v i) in
      let right = Written-last b k w (writes-cases b k w j) in
      to_stamp-injective a.position b.position (cc (left, right))

  Written-value :
      (e : StoredEvent) (k : Tuple) (v w : List ℕ) → Written e k v → Written e k w → v ≡ w
  unfolding kind
  Written-value e k v w (in_events h x) (in_events h' y) = x ∙ sym y
  Written-value e k v w (in_events h x) (in_types h' y) =
      absurd (omega (arith, ap kind h, ap kind h'))
  Written-value e k v w (in_events h x) (in_tags s i h' y) =
      absurd (omega (arith, ap kind h, ap kind h'))
  Written-value e k v w (in_types h x) (in_events h' y) =
      absurd (omega (arith, ap kind h, ap kind h'))
  Written-value e k v w (in_tags s i h x) (in_events h' y) =
      absurd (omega (arith, ap kind h, ap kind h'))
  Written-value e k v w (in_types h x) (in_types h' y) = x ∙ sym y
  Written-value e k v w (in_types h x) (in_tags s i h' y) = x ∙ sym y
  Written-value e k v w (in_tags s i h x) (in_types h' y) = x ∙ sym y
  Written-value e k v w (in_tags s i h x) (in_tags s' i' h' y) = x ∙ sym y

  -- One event gives one key one value.
  pub writes-value :
      (e : StoredEvent) (k : Tuple) (v w : List ℕ)
      → In (k, v) (writes D namespace e)
      → In (k, w) (writes D namespace e)
      → v ≡ w
  writes-value e k v w i j = Written-value e k v w (writes-cases e k v i) (writes-cases e k w j)
