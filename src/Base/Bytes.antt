-- ===== src/Base/Bytes.antt =====
-- Byte strings: big-endian numbers, and the fields of a buffer.
use Prim.Native.Nat.{ℕ, zero, suc, ◌+◌, ◌*◌, ◌/◌, ◌%◌, ◌^◌, ◌<◌}
use mathlib.Core.Path.{◌≡◌, refl, ap, ◌∙◌}
use mathlib.Core.List.{List, [], ◌∷◌, ◌++◌}
use native.Mathlib.Omega.{arith}
use native.Mathlib.Nat.{pow-suc}
use fairway.Base.Lists.{length, take, drop, length-append}

-- binary.BigEndian.PutUint…: the last `n` bytes of a number
unfoldable pub be_bytes : ℕ → ℕ → List ℕ
be_bytes zero v = []
be_bytes (suc n) v = be_bytes n (v / 256) ++ (v % 256) ∷ []

unfoldable pub of_be_from : ℕ → List ℕ → ℕ
of_be_from acc [] = acc
of_be_from acc (b ∷ bs) = of_be_from (acc * 256 + b) bs

-- binary.BigEndian.Uint…
unfoldable pub of_be : List ℕ → ℕ
unfolding of_be_from
of_be bs = of_be_from 0 bs

of_be_from-snoc :
    (acc : ℕ) (bs : List ℕ) (b : ℕ) → of_be_from acc (bs ++ b ∷ []) ≡ of_be_from acc bs * 256 + b
unfolding of_be_from
of_be_from-snoc acc [] b = refl
of_be_from-snoc acc (c ∷ bs) b = of_be_from-snoc (acc * 256 + c) bs b

pub of_be-be_bytes : (n v : ℕ) → v < 256 ^ n → of_be (be_bytes n v) ≡ v
unfolding of_be be_bytes of_be_from
of_be-be_bytes zero v h = omega (arith, h)
of_be-be_bytes (suc n) v h =
    of_be_from-snoc 0 (be_bytes n (v / 256)) (v % 256)
    ∙ omega (arith, of_be-be_bytes n (v / 256) (omega (arith, h, pow-suc 256 n)))

pub length-be_bytes : (n v : ℕ) → length (be_bytes n v) ≡ n
unfolding be_bytes
length-be_bytes zero v = refl
length-be_bytes (suc n) v =
    length-append (be_bytes n (v / 256)) _ ∙ omega (arith, length-be_bytes n (v / 256))

-- A field of known length in front of the rest.
pub take-append {ℓ} : {A : Type ℓ} (n : ℕ) (xs ys : List A) → length xs ≡ n → take n (xs ++ ys) ≡ xs
take-append zero [] ys h = refl
take-append zero (x ∷ xs) ys h = absurd (omega (arith, h))
take-append (suc n) [] ys h = absurd (omega (arith, h))
take-append (suc n) (x ∷ xs) ys h = ap (λ r. x ∷ r) (take-append n xs ys (omega (arith, h)))

pub drop-append {ℓ} : {A : Type ℓ} (n : ℕ) (xs ys : List A) → length xs ≡ n → drop n (xs ++ ys) ≡ ys
drop-append zero [] ys h = refl
drop-append zero (x ∷ xs) ys h = absurd (omega (arith, h))
drop-append (suc n) [] ys h = absurd (omega (arith, h))
drop-append (suc n) (x ∷ xs) ys h = drop-append n xs ys (omega (arith, h))
