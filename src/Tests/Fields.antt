-- ===== src/Tests/Fields.antt =====
-- In place of JSON: the texts of an event, each after its length.
use fairway.Base.{ℕ, zero, suc, ◌≡◌, refl, List, [], ◌∷◌, ◌++◌, length, take, drop}
use fairway.Base.Bytes.{take-append, drop-append}
use fairway.Fdb.{Str}

abbrev pub pack : List Str → List ℕ
pack [] = []
pack (x ∷ xs) = length x ∷ (x ++ pack xs)

abbrev pub unpack : ℕ → List ℕ → List Str
unpack zero bytes = []
unpack (suc n) [] = []
unpack (suc n) (k ∷ bytes) = take k bytes ∷ unpack n (drop k bytes)

pub unpack-pack : (xs : List Str) → unpack (length xs) (pack xs) ≡ xs
unpack-pack [] = refl
unpack-pack (x ∷ xs) =
    rw
      (
        take-append (length x) x (pack xs) refl,
        drop-append (length x) x (pack xs) refl,
        unpack-pack xs,
      )
      refl
