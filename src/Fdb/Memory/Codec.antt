-- ===== src/Fdb/Memory/Codec.antt =====
-- A self-delimiting code of values, for the instance.
use fairway.Base.{
  ℕ, zero, suc, ◌≡◌, refl, ap, List, [], ◌∷◌, ◌++◌, Option, none, some, ◌==◌, if◌then◌else◌, length,
  take, drop,
}
use mathlib.Core.List.{append_assoc}
use fairway.Fdb.Tuples.{Tuple, Element, text, bytes, int, stamp, Field, plain, nested, nil}

infixl 5 ◌>>=◌
abbrev ◌>>=◌ : {A B : Type 0} → Option A → (A → Option B) → Option B
some a >>= f = f a
none >>= f = none

write_element : Element → List ℕ
write_element (bytes b) = 1 ∷ length b ∷ b
write_element (text s) = 2 ∷ length s ∷ s
write_element (int n) = 3 ∷ n ∷ []
write_element (stamp s) = 4 ∷ s.transaction_version ∷ s.user_version ∷ []

read_stamp : ℕ → List ℕ → Option (Element × List ℕ)
read_stamp t [] = none
read_stamp t (u ∷ rest) = some (stamp (record { transaction_version = t; user_version = u }), rest)

read_element : List ℕ → Option (Element × List ℕ)
read_element [] = none
read_element (k ∷ []) = none
read_element (k ∷ n ∷ rest) =
    if k == 1
    then some (bytes (take n rest), drop n rest)
    else if k == 2
    then some (text (take n rest), drop n rest)
    else if k == 3
    then some (int n, rest)
    else read_stamp n rest

take-length_append : (s r : List ℕ) → take (length s) (s ++ r) ≡ s
take-length_append [] r = refl
take-length_append (x ∷ s) r = ap (◌∷◌ x) (take-length_append s r)

drop-length_append : (s r : List ℕ) → drop (length s) (s ++ r) ≡ r
drop-length_append [] r = refl
drop-length_append (x ∷ s) r = drop-length_append s r

read-write_element : (e : Element) (r : List ℕ) → read_element (write_element e ++ r) ≡ some (e, r)
unfolding read_element write_element read_stamp
read-write_element (bytes b) r = rw (take-length_append b r, drop-length_append b r) refl
read-write_element (text s) r = rw (take-length_append s r, drop-length_append s r) refl
read-write_element (int n) r = refl
read-write_element (stamp s) r = refl

write_tuple : Tuple → List ℕ
write_tuple [] = []
write_tuple (e ∷ t) = write_element e ++ write_tuple t

read_tuple : ℕ → List ℕ → Option (Tuple × List ℕ)
read_tuple zero r = some ([], r)
read_tuple (suc n) r = do (e, r') ← read_element r; (t, r'') ← read_tuple n r'; some (e ∷ t, r'')

read-write_tuple :
    (t : Tuple) (r : List ℕ) → read_tuple (length t) (write_tuple t ++ r) ≡ some (t, r)
unfolding read_tuple write_tuple
read-write_tuple [] r = refl
read-write_tuple (e ∷ t) r =
    rw (append_assoc, read-write_element, ◌>>=◌, read-write_tuple t r, ◌>>=◌) refl

write_field : Field → List ℕ
write_field (plain e) = 1 ∷ write_element e
write_field (nested t) = 2 ∷ length t ∷ write_tuple t
write_field nil = 3 ∷ []

read_nested : List ℕ → Option (Field × List ℕ)
read_nested [] = none
read_nested (n ∷ r) = do (t, r') ← read_tuple n r; some (nested t, r')

read_field : List ℕ → Option (Field × List ℕ)
unfolding read_nested
read_field [] = none
read_field (k ∷ r) =
    if k == 1
    then (do (e, r') ← read_element r; some (plain e, r'))
    else if k == 2
    then read_nested r
    else some (nil, r)

read-write_field : (f : Field) (r : List ℕ) → read_field (write_field f ++ r) ≡ some (f, r)
unfolding read_field write_field
read-write_field (plain e) r = rw (read-write_element, ◌>>=◌) refl
read-write_field (nested t) r = rw (read-write_tuple, ◌>>=◌) refl
read-write_field nil r = refl

write_fields : List Field → List ℕ
write_fields [] = []
write_fields (f ∷ fs) = write_field f ++ write_fields fs

read_fields : ℕ → List ℕ → Option (List Field)
read_fields zero r = some []
read_fields (suc n) r = do (f, r') ← read_field r; fs ← read_fields n r'; some (f ∷ fs)

read-write_fields : (fs : List Field) → read_fields (length fs) (write_fields fs) ≡ some fs
unfolding read_fields write_fields
read-write_fields [] = refl
read-write_fields (f ∷ fs) = rw (read-write_field, ◌>>=◌, read-write_fields fs, ◌>>=◌) refl

unfoldable pub pack : List Field → List ℕ
unfolding write_fields write_field write_tuple write_element
pack fs = length fs ∷ write_fields fs

unfoldable pub unpack : List ℕ → Option (List Field)
unfolding read_fields read_field read_tuple read_element read_stamp
unpack [] = none
unpack (n ∷ r) = read_fields n r

pub unpack-pack : (fs : List Field) → unpack (pack fs) ≡ some fs
unfolding unpack pack
unpack-pack fs = read-write_fields fs
