-- ===== src/Fdb/Memory.antt =====
-- An instance of the database interface, kept in memory: it shows that the laws can be met, and the
-- tests run on it.
mod Assoc
mod Codec
pub mod Ranges
use Assoc.{
  find, put, keep_keys, IsAscending, find-put, find-keep_keys, put-IsAscending, In-find, find-In,
  Before,
}
use Codec.{pack, unpack, unpack-pack}
use Ranges.{
  tuple_ord, below, starts, stops, within, is_prefix, range_keys, within_sound, within_complete,
  after-stamp, after-within, int-starts, int-stops,
}
use Prim.Native.Nat.{Ordering}
use mathlib.Core.List.{append-nil, append_assoc}
use fairway.Base.{
  Pairwise-filter, ℕ, suc, ◌+◌, ◌≡◌, refl, ap, subst, sym, ◌∙◌, Bool, true, false, not, ◌&&◌, ◌||◌,
  List, [], ◌∷◌, ◌++◌, Option, none, some, arith, leb, ltb, if◌then◌else◌, In, All, Pairwise,
  In-filter, In-filter_of, Bool-cases, inl, inr,
}
use fairway.Base.Order.{Ord, ℕ_ord, list_ord, same, same_iff, same_self, at_most}
use fairway.Fdb.Tuples.{
  Tuple, Element, Stamp, stamp, int, element_ord, Key, packed, suffixed, KeyRange, Database,
  Beneath, stamp_ltb,
}

pub record Store : Type 0 where
  pub entries : List (Tuple × List ℕ)
  pub ascending : IsAscending entries

unfoldable pub scan_memory : Store → KeyRange → List (Tuple × List ℕ)
unfolding within
scan_memory d r = keep_keys (within r) d.entries

pub scan_sound :
    (d : Store) (r : KeyRange) (k : Tuple) (v : List ℕ)
    → In (k, v) (scan_memory d r)
    → (find k d.entries ≡ some v) × (starts r.begin k ≡ true) × (stops k r.end ≡ true)
unfolding scan_memory
scan_sound d r k v i =
    let (j, t) = In-filter (λ (e : Tuple × List ℕ). within r e.0) d.entries i in
    (find-In k v d.entries d.ascending j, ground (arith, t), ground (arith, t))

pub scan_complete :
    (d : Store) (r : KeyRange) (k : Tuple) (v : List ℕ)
    → find k d.entries ≡ some v
    → starts r.begin k ≡ true
    → stops k r.end ≡ true
    → In (k, v) (scan_memory d r)
unfolding scan_memory
scan_complete d r k v h b e =
    In-filter_of (λ (e : Tuple × List ℕ). within r e.0) d.entries (In-find k v d.entries h)
      (rw (b, e) refl)

All-Before-below :
    (a : Tuple × List ℕ) (m : List (Tuple × List ℕ))
    → All (Before a) m
    → All (λ b. below a.0 b.0 ≡ true) m
unfolding below
All-Before-below a [] h = tt
All-Before-below a (b ∷ m) h = (ground (arith, h.0), All-Before-below a m h.1)

ascends : (m : List (Tuple × List ℕ)) → IsAscending m → Pairwise (λ a b. below a.0 b.0 ≡ true) m
ascends [] h = tt
ascends (a ∷ m) h = (All-Before-below a m h.0, ascends m h.1)

pub scan-ascends :
    (d : Store) (r : KeyRange)
    → Pairwise (λ a b. starts (suffixed a.0 0) b.0 ≡ true) (scan_memory d r)
unfolding scan_memory
scan-ascends d r = Pairwise-filter _ _ d.entries (ascends d.entries d.ascending)

unfoldable pub keep_store : (Tuple → Bool) → Store → Store
keep_store p d = record {
  entries = keep_keys p d.entries;
  ascending = Pairwise-filter Before _ d.entries d.ascending;
}

unfoldable pub set_store : Store → Tuple → List ℕ → Store
set_store d k v = record {
  entries = put k v d.entries;
  ascending = put-IsAscending k v d.entries d.ascending;
}

unfoldable pub get_store : Store → Tuple → Option (List ℕ)
get_store d k = find k d.entries

get-keep_store :
    (p : Tuple → Bool) (d : Store) (j : Tuple)
    → get_store (keep_store p d) j ≡ (if p j then get_store d j else none)
unfolding get_store keep_store
get-keep_store p d j = find-keep_keys p j d.entries

abbrev pub empty : Store
empty = record { entries = []; ascending = tt }

pub get-set_store :
    (d : Store) (k j : Tuple) (v : List ℕ)
    → get_store (set_store d k v) j ≡ (if same k j then some v else get_store d j)
unfolding get_store set_store
get-set_store d k j v = find-put k j v d.entries

negated : (b : Bool) (x : Option (List ℕ)) → (if not b then x else none) ≡ (if b then none else x)
negated true x = refl
negated false x = refl

pub get-clear_store :
    (d : Store) (k j : Tuple)
    → get_store (keep_store (λ i. not (same k i)) d) j ≡ (if same k j then none else get_store d j)
get-clear_store d k j =
    get-keep_store (λ i. not (same k i)) d j ∙ negated (same k j) (get_store d j)

pub get-clear_range_store :
    (d : Store) (r : KeyRange) (j : Tuple)
    → get_store (keep_store (λ i. not (within r i)) d) j
      ≡ (if starts r.begin j && stops j r.end then none else get_store d j)
unfolding within
get-clear_range_store d r j =
    get-keep_store (λ i. not (within r i)) d j
    ∙ negated (starts r.begin j && stops j r.end) (get_store d j)

unfoldable pub memory : Database
unfolding get_store set_store keep_store scan_memory starts stops within below is_prefix pack unpack
memory = record {
  Db = Store;
  get = get_store;
  set = set_store;
  clear = λ d k. keep_store (λ i. not (same k i)) d;
  clear_range = λ d r. keep_store (λ i. not (within r i)) d;
  scan = scan_memory;
  starts = starts;
  stops = stops;
  range_keys = range_keys;
  pack = pack;
  unpack = unpack;
  get-set = get-set_store;
  get-clear = get-clear_store;
  get-clear_range = get-clear_range_store;
  scan_sound = scan_sound;
  scan_complete = scan_complete;
  scan_ascends = scan-ascends;
  within_sound = within_sound;
  within_complete = within_complete;
  after_stamp = after-stamp;
  after_within = after-within;
  int_starts = int-starts;
  int_stops = int-stops;
  unpack-pack = unpack-pack;
}

-- The database without keys.
unfoldable pub no_data : memory.Db
unfolding memory
no_data = empty

pub get-no_data : (k : Tuple) → memory.get no_data k ≡ none
unfolding memory no_data
get-no_data k = refl
