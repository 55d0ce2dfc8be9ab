-- ===== src/Dcb/Types.antt =====
-- The data of dcb/dcb.go: events, queries, conditions, versionstamps and the errors of the package.
use fairway.Base.{
  ◌≡◌, refl, ◌⊎◌, inl, inr, ℕ, ◌+◌, ◌*◌, ◌/◌, ◌%◌, Bool, true, false, ◌&&◌, not, List, [], ◌∷◌,
  Option, any,
}
use fairway.Base.Order.{ℕ_ord, list_ord, same}
use fairway.Fdb.{Str, Stamp}

-- [12]byte, read as the big-endian number that it holds: `bytes.Compare` is the order of numbers.
abbrev pub Versionstamp : Type 0
Versionstamp = ℕ

-- copy(txVersion[:], v[:10]) and binary.BigEndian.Uint16(v[10:12])
abbrev pub to_stamp : Versionstamp → Stamp
to_stamp v = record { transaction_version = v / 65536; user_version = v % 65536 }

-- copy(vs[:10], TransactionVersion[:]) and binary.BigEndian.PutUint16(vs[10:12], UserVersion)
abbrev pub of_stamp : Stamp → Versionstamp
of_stamp s = s.transaction_version * 65536 + s.user_version % 65536

pub record Event : Type 0 where
  pub event_type : Str
  pub tags : List Str
  pub payload : List ℕ

pub record QueryItem : Type 0 where
  pub types : List Str
  pub tags : List Str

pub record Query : Type 0 where
  pub items : List QueryItem

pub record AppendCondition : Type 0 where
  pub query : Query
  pub after : Option Versionstamp

pub record ReadOptions : Type 0 where
  pub limit : ℕ
  pub after : Option Versionstamp
  pub reverse : Bool

pub record StoredEvent : Type 0 where
  pub event : Event
  pub position : Versionstamp

-- `formatted e` is `fmt.Errorf("…%s", e)`: it shows the text of `e`, and `errors.Is` finds no `e` in it.
pub data Error : Type 0 where
  empty_events append_condition_failed invalid_query missing_type context_done unknown_event_type :
      Error
  no_data bad_tuple bad_type bad_tags bad_data bad_key : Error
  formatted : Error → Error

pub data Result {ℓ} (A : Type ℓ) : Type ℓ where
  ok : A → Result A
  err : Error → Result A

infixl 5 ◌>>=◌
abbrev pub ◌>>=◌ {ℓ κ} : {A : Type ℓ} {B : Type κ} → Result A → (A → Result B) → Result B
ok a >>= f = f a
err e >>= f = err e

-- The k-th look at `ctx.Err()` finds the context done.
abbrev pub Context : Type 0
Context = ℕ → Bool

-- len(xs) == 0
abbrev pub is_empty {ℓ} : {A : Type ℓ} → List A → Bool
is_empty [] = true
is_empty (x ∷ xs) = false

unfoldable pub has_no_type_nor_tags : QueryItem → Bool
has_no_type_nor_tags q = is_empty q.types && is_empty q.tags

unfoldable pub has_types_only : QueryItem → Bool
has_types_only q = not (is_empty q.types) && is_empty q.tags

unfoldable pub has_types_and_tags : QueryItem → Bool
has_types_and_tags q = not (is_empty q.types) && not (is_empty q.tags)

-- Whether a list of strings has this one.
abbrev pub has : List Str → Str → Bool
has xs t = any (same t) xs

-- No string stands twice.
abbrev pub NoRepeat : List Str → Type 0
NoRepeat [] = Unit
NoRepeat (x ∷ xs) = (has xs x ≡ false) × NoRepeat xs

pub ok_injective {ℓ} : {A : Type ℓ} {x y : A} → ok x ≡ ok y → x ≡ y
ok_injective h = cc

pub Result-cases {ℓ} :
    {A : Type ℓ} (r : Result A) → ((a : A) × (r ≡ ok a)) ⊎ ((e : Error) × (r ≡ err e))
Result-cases (ok a) = inl (a, refl)
Result-cases (err e) = inr (e, refl)
