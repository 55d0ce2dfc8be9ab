-- ===== src/Examples/Users/Handlers/Tokens.antt =====
-- Which Authorization headers ExtractUserID of crypto/jwt.go accepts.
use fairway.Base.{
  ℕ, ◌≡◌, ◌↔◌, refl, ap, sym, ◌∙◌, inl, inr, Bool-cases, [], ◌∷◌, ◌++◌, Option, none, some,
  some_injective, codes,
}
use fairway.Base.Order.{ℕ_ord, list_ord, same, same_iff}
use fairway.Fdb.{Str}
use fairway.Dcb.Types.{Result, ok}
use fairway.Examples.Users.Handlers.{with_first, split_2, extract_user_id}

-- The parts around the first space.
with_first-some :
    (c : ℕ) (r : Option (Str × Str)) (before after : Str)
    → with_first c r ≡ some (before, after)
    → (x : Str) × (r ≡ some (x, after)) × (before ≡ c ∷ x)
with_first-some c none before after h = cc h
with_first-some c (some (x, y)) before after h =
    let e : (c ∷ x, y) ≡ (before, after) = some_injective h in
    (
      x,
      ap (λ (t : Str). some (x, t)) (ap (λ (p : Str × Str). p.1) e),
      sym (ap (λ (p : Str × Str). p.0) e),
    )

split_2-joins : (s before after : Str) → split_2 s ≡ some (before, after) → s ≡ before ++ 32 ∷ after
unfolding split_2
split_2-joins [] before after h = cc h
split_2-joins (c ∷ cs) before after h = elim (Bool-cases (same c 32)) [
  | inl space ↦
      let e : ◌≡◌ {A = Str × Str} ([], cs) (before, after) =
        some_injective (rw (split_2, space) at h) in
      rw ((same_iff c 32).0 space, ← ap (λ (p : Str × Str). p.0) e, ← ap (λ (p : Str × Str). p.1) e)
        refl
  | inr other ↦
      let (x, rest, first) =
        with_first-some c (split_2 cs) before after (rw (split_2, other) at h) in
      rw (first, split_2-joins cs x after rest) refl
]

-- A header gives the id of a user exactly if it is `Token `, with one space, and then a text that the
-- check of tokens takes for that user.
pub extract_user_id-accepts :
    (validate : Str → Result Str) (header id : Str)
    → (extract_user_id validate header ≡ ok id)
      ↔ ((token : Str) × (header ≡ codes "Token " ++ token) × (validate token ≡ ok id))
unfolding extract_user_id split_2
extract_user_id-accepts validate header id = (accepted header, λ accepts. rw accepts.1 accepts.2)
  where
    accepted :
        (h : Str)
        → extract_user_id validate h ≡ ok id
        → (token : Str) × (h ≡ codes "Token " ++ token) × (validate token ≡ ok id)
    accepted [] e = cc e
    accepted (c ∷ cs) e = parts (split_2 (c ∷ cs)) refl
      where
        parts :
            (r : Option (Str × Str))
            → split_2 (c ∷ cs) ≡ r
            → (token : Str) × (c ∷ cs ≡ codes "Token " ++ token) × (validate token ≡ ok id)
        parts none is = cc (rw (extract_user_id, is) at e)
        parts (some (scheme, token)) is = elim (Bool-cases (same scheme (codes "Token"))) [
          | inr other ↦ cc (rw (extract_user_id, is, other) at e)
          | inl known ↦ (
            token,
            split_2-joins (c ∷ cs) scheme token is
                ∙ ap (λ (x : Str). x ++ 32 ∷ token) ((same_iff scheme (codes "Token")).0 known),
            rw (extract_user_id, is, known) at e,
          )
        ]
