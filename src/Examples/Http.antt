-- ===== src/Examples/Http.antt =====
-- utils/http.go, JsonParse, and what the examples use of http.ResponseWriter. A body is its bytes.
use fairway.Base.{ℕ, List, [], ◌∷◌, ◌++◌, Option, none, some}
use fairway.Fdb.{Str}
use fairway.Dcb.Types.{Result, ok, ◌>>=◌, Error}

-- What json.NewEncoder(w).Encode writes: the text of an error, or a value.
pub data Written (B : Type 0) : Type 0 where
  problem : Error → Written B
  value : B → Written B

-- A response as it is written; the server sends status 200 if the handler sets none.
pub record Response (B : Type 0) : Type 0 where
  pub status : Option ℕ
  pub body : List (Written B)

abbrev pub no_response : {B : Type 0} → Response B
no_response = record { status = none; body = [] }

-- The first WriteHeader counts; a later one is superfluous.
abbrev pub or_else : Option ℕ → ℕ → Option ℕ
or_else none code = some code
or_else (some first) code = some first

module _ {B : Type 0} where
  unfoldable pub write_header : ℕ → Response B → Response B
  write_header code w = record w { status = or_else w.status code }

  unfoldable pub encode : Written B → Response B → Response B
  encode b w = record w { status = or_else w.status 200; body = w.body ++ b ∷ [] }

-- `decode` and `validate` stand for JSON and for the validator of structs.
unfoldable pub json_parse :
    {A : Type 0} → (Str → Result A) → (A → Result (Unit {0})) → Str → Result A
json_parse decode validate body = decode body >>= λ v. validate v >>= λ checked. ok v
