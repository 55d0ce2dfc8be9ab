-- ===== src/Command/Unchanged.antt =====
-- A read of a log that has grown by events that its query does not select.
use fairway.Base.{
  ℕ, ◌≡◌, refl, sym, ap, ◌∙◌, inl, inr, Bool, true, false, Bool-cases, List, [], ◌∷◌, ◌++◌, map,
  Option, none, some, any, filter, backwards,
}
use fairway.Dcb.Types.{Query, ReadOptions, StoredEvent, ok}
use fairway.Dcb.Log.{selects_any}
use fairway.Dcb.Read.Iterators.{directed}
use fairway.Dcb.ReadAll.{options_or_default}
use fairway.Command.Reads.{up_to, log_read}

filter-backwards {ℓ} :
    {A : Type ℓ} (p : A → Bool) (xs acc : List A)
    → filter p (backwards xs acc) ≡ backwards (filter p xs) (filter p acc)
filter-backwards p [] acc = refl
filter-backwards p (x ∷ xs) acc = elim (Bool-cases (p x)) [
  | inl t ↦ filter-backwards p xs (x ∷ acc) ∙ rw t refl
  | inr f ↦ filter-backwards p xs (x ∷ acc) ∙ rw f refl
]

filter-append_none {ℓ} :
    {A : Type ℓ} (p : A → Bool) (xs ys : List A)
    → any p ys ≡ false
    → filter p (xs ++ ys) ≡ filter p xs
filter-append_none p [] [] h = refl
filter-append_none p [] (y ∷ ys) h = elim (Bool-cases (p y)) [
  | inl t ↦ cc (rw t at h)
  | inr f ↦ rw f (filter-append_none p [] ys (rw f at h))
]
filter-append_none p (x ∷ xs) ys h = rw (filter-append_none p xs ys h) refl

pub filter-directed {ℓ} :
    {A : Type ℓ} (p : A → Bool) (reverse : Bool) (xs : List A)
    → filter p (directed reverse xs) ≡ directed reverse (filter p xs)
filter-directed p false xs = refl
filter-directed p true xs = filter-backwards p xs []

module _ (old new : List StoredEvent) (query : Query) (opts : Option ReadOptions) where
  -- It gives what it gave before.
  pub log_read-grown :
      (options_or_default opts).after ≡ none
      → any (selects_any query.items none) new ≡ false
      → log_read (old ++ new) query opts ≡ log_read old query opts
  log_read-grown start untouched =
      ap (λ es. map ok (up_to (options_or_default opts).limit es))
        (at (options_or_default opts).after start)
    where
      at :
          (after : Option ℕ)
          → after ≡ none
          → filter
              (selects_any query.items after)
              (directed (options_or_default opts).reverse (old ++ new))
            ≡ filter
                (selects_any query.items after)
                (directed (options_or_default opts).reverse old)
      at none e =
          filter-directed (selects_any query.items none) (options_or_default opts).reverse
            (old ++ new)
          ∙ ap (directed (options_or_default opts).reverse)
              (filter-append_none (selects_any query.items none) old new untouched)
          ∙ sym
              (filter-directed (selects_any query.items none) (options_or_default opts).reverse old)
      at (some p) e = cc e
