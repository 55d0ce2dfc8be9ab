-- ===== src/Fdb/Tuples.antt =====
-- Tuple elements, keys and ranges, and the interface of the database.
use fairway.Base.{
  ℕ, ◌≡◌, Bool, true, ◌&&◌, ◌||◌, List, [], ◌∷◌, ◌++◌, Option, none, some, arith, ltb, leb, ◌==◌,
  if◌then◌else◌, In, Pairwise,
}
use fairway.Base.Order.{Ord, ℕ_ord, list_ord, same}

-- A Go string is its bytes.
abbrev pub Str : Type 0
Str = List ℕ

-- `tuple.Versionstamp`: ten bytes, read as the big-endian number that they hold, and a uint16.
pub record Stamp : Type 0 where
  pub transaction_version : ℕ
  pub user_version : ℕ

-- The elements that the program puts into keys. An int64 in a key is a time after the epoch.
pub data Element : Type 0 where
  text : Str → Element
  bytes : List ℕ → Element
  int : ℕ → Element
  stamp : Stamp → Element

abbrev pub Tuple : Type 0
Tuple = List Element

-- An entry of a packed value: an element, a tuple of elements, or nil.
pub data Field : Type 0 where
  plain : Element → Field
  nested : Tuple → Field
  nil : Field

-- Versionstamps are ordered by transaction, then by user version.
abbrev pub stamp_ltb : Stamp → Stamp → Bool
stamp_ltb a b =
    ltb a.transaction_version b.transaction_version
    || (a.transaction_version == b.transaction_version && ltb a.user_version b.user_version)

abbrev pub code : Element → List ℕ
code (bytes b) = 1 ∷ b
code (text s) = 2 ∷ s
code (int n) = 20 ∷ n ∷ []
code (stamp s) = 51 ∷ s.transaction_version ∷ s.user_version ∷ []

pub code-injective : (a b : Element) → code a ≡ code b → a ≡ b
code-injective (bytes a) (bytes b) h = cc
code-injective (text a) (text b) h = cc
code-injective (int a) (int b) h = cc
code-injective (stamp a) (stamp b) h = ground arith
code-injective (bytes a) (text b) h = ground arith
code-injective (bytes a) (int b) h = ground arith
code-injective (bytes a) (stamp b) h = ground arith
code-injective (text a) (bytes b) h = ground arith
code-injective (text a) (int b) h = ground arith
code-injective (text a) (stamp b) h = ground arith
code-injective (int a) (bytes b) h = ground arith
code-injective (int a) (text b) h = ground arith
code-injective (int a) (stamp b) h = ground arith
code-injective (stamp a) (bytes b) h = ground arith
code-injective (stamp a) (text b) h = ground arith
code-injective (stamp a) (int b) h = ground arith

-- Elements compare by a type code first, then by their contents.
instance abbrev pub element_ord : Ord Element
element_ord = record {
  cmp = λ a b. list_ord.cmp (code a) (code b);
  cmp_self = λ a. list_ord.cmp_self (code a);
  cmp_eq = λ a b h. code-injective a b (list_ord.cmp_eq (code a) (code b) h);
  cmp_flip = λ a b. list_ord.cmp_flip (code a) (code b);
  cmp_trans = λ a b c h k. list_ord.cmp_trans (code a) (code b) (code c) h k;
}

-- A packed tuple, or a packed tuple with one byte appended.
pub data Key : Type 0 where
  packed : Tuple → Key
  suffixed : Tuple → ℕ → Key

pub record KeyRange : Type 0 where
  pub begin : Key
  pub end : Key

-- `t` lies strictly within the subspace with prefix `p`.
abbrev pub Beneath : Tuple → Tuple → Type 0
Beneath p t = (x : Element) × (r : Tuple) × (t ≡ p ++ (x ∷ r))

pub record Database : Type 1 where
  pub Db : Type 0
  pub get : Db → Tuple → Option (List ℕ)
  pub set : Db → Tuple → List ℕ → Db
  pub clear : Db → Tuple → Db
  pub clear_range : Db → KeyRange → Db
  -- `GetRange`, in ascending order of keys
  pub scan : Db → KeyRange → List (Tuple × List ℕ)
  -- begin ≤ key, and key < end
  pub starts : Key → Tuple → Bool
  pub stops : Tuple → Key → Bool
  -- `FDBRangeKeys` of the subspace with this prefix
  pub range_keys : Tuple → KeyRange
  -- `Pack` and `Unpack` of a value
  pub pack : List Field → List ℕ
  pub unpack : List ℕ → Option (List Field)
  pub get-set :
      (d : Db) (k j : Tuple) (v : List ℕ)
      → get (set d k v) j ≡ (if same k j then some v else get d j)
  pub get-clear : (d : Db) (k j : Tuple) → get (clear d k) j ≡ (if same k j then none else get d j)
  pub get-clear_range :
      (d : Db) (r : KeyRange) (j : Tuple)
      → get (clear_range d r) j ≡ (if starts r.begin j && stops j r.end then none else get d j)
  pub scan_sound :
      (d : Db) (r : KeyRange) (k : Tuple) (v : List ℕ)
      → In (k, v) (scan d r)
      → (get d k ≡ some v) × (starts r.begin k ≡ true) × (stops k r.end ≡ true)
  pub scan_complete :
      (d : Db) (r : KeyRange) (k : Tuple) (v : List ℕ)
      → get d k ≡ some v
      → starts r.begin k ≡ true
      → stops k r.end ≡ true
      → In (k, v) (scan d r)
  pub scan_ascends :
      (d : Db) (r : KeyRange) → Pairwise (λ a b. starts (suffixed a.0 0) b.0 ≡ true) (scan d r)
  pub within_sound :
      (p t : Tuple)
      → starts (range_keys p).begin t ≡ true
      → stops t (range_keys p).end ≡ true
      → Beneath p t
  pub within_complete :
      (p t : Tuple)
      → Beneath p t
      → (starts (range_keys p).begin t ≡ true) × (stops t (range_keys p).end ≡ true)
  pub after_stamp :
      (p : Tuple) (a b : Stamp)
      → starts (suffixed (p ++ stamp a ∷ []) 0) (p ++ stamp b ∷ []) ≡ stamp_ltb a b
  pub after_within :
      (p t : Tuple) (a : Stamp)
      → starts (suffixed (p ++ stamp a ∷ []) 0) t ≡ true
      → stops t (range_keys p).end ≡ true
      → Beneath p t
  pub int_starts :
      (p r : Tuple) (a b : ℕ) → starts (packed (p ++ int a ∷ [])) (p ++ int b ∷ r) ≡ leb a b
  pub int_stops :
      (p r : Tuple) (a b : ℕ) → stops (p ++ int b ∷ r) (packed (p ++ int a ∷ [])) ≡ ltb b a
  pub unpack-pack : (fields : List Field) → unpack (pack fields) ≡ some fields

abbrev pub inside : (D : Database) → KeyRange → Tuple → Bool
inside D r t = D.starts r.begin t && D.stops t r.end
