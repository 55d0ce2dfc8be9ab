-- ===== src/Dcb/Subsets.antt =====
-- `generateAllSubsets` and `sortTags` of dcb/dcb.go.
pub mod Exact
pub mod Cover
use native.Mathlib.Nat.{pow-suc, div-div-eq-div-mul}
use fairway.Base.{
  ℕ, zero, suc, ◌+◌, ◌-◌, ◌*◌, ◌/◌, ◌%◌, ◌^◌, ◌≤◌, ◌<◌, ◌≡◌, ◌≢◌, ◌↔◌, refl, sym, ap, subst, ◌∙◌,
  Bool, true, false, ◌⊎◌, inl, inr, List, [], ◌∷◌, arith, ltb, ◌==◌, if◌then◌else◌, Bool-cases, In,
  here, there, length,
}
use fairway.Fdb.{Str}
use fairway.Base.Order.{Ord, ℕ_ord, list_ord}
use fairway.Base.Sort.{sort, length-sort}

unfoldable pub sort_tags : List Str → List Str
unfolding sort
sort_tags tags = sort tags

-- mask&(1<<i) != 0
abbrev bit_set : ℕ → ℕ → Bool
bit_set mask i = mask / 2 ^ i % 2 == 1

-- The inner loop over `i`: the tags whose bit is set.
pick : ℕ → ℕ → List Str → List Str
pick mask i [] = []
pick mask i (t ∷ ts) = let rest = pick mask (suc i) ts in if bit_set mask i then t ∷ rest else rest

-- The outer loop over `mask`, for `count` more rounds.
subsets_from : ℕ → ℕ → List Str → List (List Str)
subsets_from zero mask ts = []
subsets_from (suc count) mask ts = pick mask 0 ts ∷ subsets_from count (suc mask) ts

-- (1 << n) - 1 on the 64-bit `int`, as the number of rounds of `for mask := 1; mask <= …`.
total_subsets : ℕ → ℕ
total_subsets n =
    let word : ℕ = (2 ^ n % 2 ^ 64 + 2 ^ 64 - 1) % 2 ^ 64 in if ltb word (2 ^ 63) then word else 0

unfoldable pub generate_all_subsets : List Str → List (List Str)
unfolding pick subsets_from total_subsets
generate_all_subsets [] = []
generate_all_subsets (t ∷ ts) =
    let sorted = sort_tags (t ∷ ts) in subsets_from (total_subsets (length sorted)) 1 sorted

-- `Chosen s ts`: `s` is left of `ts` when some entries are dropped.
pub data Chosen : List Str → List Str → Type 0 where
  done : Chosen [] []
  keep : {t : Str} {s ts : List Str} → Chosen s ts → Chosen (t ∷ s) (t ∷ ts)
  leave : {t : Str} {s ts : List Str} → Chosen s ts → Chosen s (t ∷ ts)
