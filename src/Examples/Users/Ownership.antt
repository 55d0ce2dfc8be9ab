-- ===== src/Examples/Users/Ownership.antt =====
-- The maps by which the commands track who owns a name or an email.
use fairway.Base.{
  ◌≡◌, refl, inl, inr, Bool, true, false, Bool-cases, List, [], ◌∷◌, Option, none, some, any, arith,
  if◌then◌else◌,
}
use fairway.Base.Order.{ℕ_ord, list_ord, same, same_self, same_iff}
use fairway.Fdb.{Str}
use fairway.Examples.Users.{put}

abbrev pub lookup {ℓ} : {V : Type ℓ} → Str → List (Str × V) → Option V
lookup k [] = none
lookup k ((x, v) ∷ m) = if same x k then some v else lookup k m

pub lookup-put {ℓ} :
    {V : Type ℓ} (j k : Str) (v : V) (m : List (Str × V))
    → lookup j (put k v m) ≡ (if same k j then some v else lookup j m)
unfolding put
lookup-put j k v [] = refl
lookup-put j k v ((x, w) ∷ m) = elim (Bool-cases (same x k)) [
  | inl s ↦ rw s (rw ((same_iff x k).0 s) (ground arith))
  | inr s ↦
      rw (s, lookup-put j k v m)
        (elim (Bool-cases (same x j)) [
          | inr f ↦ rw f (ground arith)
          | inl t ↦
              let apart : same k j ≡ false = elim (Bool-cases (same k j)) [
                | inr f ↦ f
                | inl u ↦ cc (s, (same_iff k j).0 u)
              ] in
              rw (t, apart) refl
        ])
]

pub any_of_lookup {ℓ} :
    {V : Type ℓ} (p : Str × V → Bool) (k : Str) (v : V) (m : List (Str × V))
    → ((x : Str) → p (x, v) ≡ true)
    → lookup k m ≡ some v
    → any p m ≡ true
any_of_lookup p k v [] always h = cc h
any_of_lookup p k v ((x, w) ∷ m) always h = elim (Bool-cases (same x k)) [
  | inl s ↦ let is : w ≡ v = cc (rw s at h) in rw (is, always x) refl
  | inr s ↦ let rest = any_of_lookup p k v m always (rw s at h) in ground (arith, rest)
]

module _ {ℓ} {V : Type ℓ} (u id text new : Str) (m other : List (Str × V)) (v : V)
    (c : Option Str) where
  -- The map still marks the owner of the text, after an event that gives the user `id` a new text.
  pub still_marked :
      (c ≡ some text → lookup u m ≡ some v)
      → (same id u ≡ false → lookup u other ≡ lookup u m)
      → (if same id u then some new else c) ≡ some text
      → lookup u (if same new text then put id v m else other) ≡ some v
  still_marked k apart h = elim (Bool-cases (same id u)) [
    | inl i ↦
        let is : new ≡ text = cc (rw i at h) in rw (is, same_self text, lookup-put u id v m, i) refl
    | inr i ↦ elim (Bool-cases (same new text)) [
      | inl n ↦ rw (n, lookup-put u id v m, i) (k (rw i at h))
      | inr n ↦ rw (n, apart i) (k (rw i at h))
    ]
  ]

  -- Releasing a text marks no one else.
  pub released_apart :
      (w : V) (test : Bool)
      → same id u ≡ false
      → lookup u (if test then put id w m else m) ≡ lookup u m
  released_apart w true i = rw (lookup-put u id w m, i) refl
  released_apart w false i = refl

-- An event that gives no one the text keeps what is known of its owner.
pub unmarked :
    {M : Type 0} (u id text new : Str) (c : Option Str)
    → same text new ≡ false
    → (c ≡ some text → M)
    → (if same id u then some new else c) ≡ some text
    → M
unmarked u id text new c other k h = elim (Bool-cases (same id u)) [
  | inr i ↦ k (rw i at h)
  | inl i ↦ let is : new ≡ text = cc (rw i at h) in cc (rw is at other, same_self text)
]
