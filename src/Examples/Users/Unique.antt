-- ===== src/Examples/Users/Unique.antt =====
-- What the commands of users keep unique.
use fairway.Base.{
  ◌≡◌, sym, ◌∙◌, inl, inr, true, false, Bool-cases, List, [], ◌∷◌, ◌++◌, Option, none, some, All,
  Pairwise, Pairwise-append_one, if◌then◌else◌,
}
use fairway.Base.Order.{ℕ_ord, list_ord, same, same_iff}
use fairway.Fdb.{Str}
use fairway.Command.Plans.Tracking.{trace-append}
use fairway.Examples.Users.{UserEvent}
use fairway.Examples.Users.Ids.{registers}
use fairway.Examples.Users.Names.{next_name, name_of}
use fairway.Examples.Users.Emails.{next_email, email_of}

-- No two users have the same text.
abbrev pub IsInjective : (Str → Option Str) → Type 0
IsInjective has = (u v text : Str) → has u ≡ some text → has v ≡ some text → u ≡ v

-- No two of the events register the same id.
abbrev pub Apart : UserEvent → UserEvent → Type 0
Apart a b = (id : Str) → registers id b.body ≡ true → registers id a.body ≡ false

pub record IsUnique (es : List UserEvent) : Type 0 where
  pub ids : Pairwise Apart es
  pub names : IsInjective (λ u. name_of u es)
  pub emails : IsInjective (λ u. email_of u es)

-- A user gets a text that no other user has.
IsInjective-given :
    (has : Str → Option Str) (id text : Str)
    → IsInjective has
    → ((v : Str) → same id v ≡ false → has v ≡ some text → ⊥)
    → IsInjective (λ u. if same id u then some text else has u)
IsInjective-given has id text inj free u v t hu hv = elim (Bool-cases (same id u)) [
  | inl a ↦ elim (Bool-cases (same id v)) [
    | inl b ↦ sym ((same_iff id u).0 a) ∙ (same_iff id v).0 b
    | inr b ↦ let is : text ≡ t = cc (rw a at hu) in absurd (free v b (rw is (rw b at hv)))
  ]
  | inr a ↦ elim (Bool-cases (same id v)) [
    | inl b ↦ let is : text ≡ t = cc (rw b at hv) in absurd (free u a (rw is (rw a at hu)))
    | inr b ↦ inj u v t (rw a at hu) (rw b at hv)
  ]
]

IsInjective-same :
    (f g : Str → Option Str) → ((u : Str) → g u ≡ f u) → IsInjective f → IsInjective g
IsInjective-same f g e inj u v t hu hv = inj u v t (sym (e u) ∙ hu) (sym (e v) ∙ hv)

-- The new event registers no id that an event before it has.
pub fresh_id :
    (id : Str) (es : List UserEvent)
    → All (λ a. registers id a.body ≡ false) es
    → (b : UserEvent) → ((i : Str) → registers i b.body ≡ true → i ≡ id)
    → All (λ a. Apart a b) es
fresh_id id [] h b only = tt
fresh_id id (e ∷ es) h b only = (λ i r. rw (only i r) h.0, fresh_id id es h.1 b only)

-- An event that registers no one.
pub no_id :
    (es : List UserEvent) (b : UserEvent)
    → ((i : Str) → registers i b.body ≡ false)
    → All (λ a. Apart a b) es
no_id [] b none_at = tt
no_id (e ∷ es) b none_at = (λ i r. cc (r, none_at i), no_id es b none_at)

-- One event that gives the user `id` these texts, or none.
abbrev pub gives : Option Str → Str → Str → Option Str → Option Str
gives none id u c = c
gives (some text) id u c = if same id u then some text else c

abbrev pub Free : (Str → Option Str) → Option Str → Str → Type 0
Free has none id = Unit
Free has (some text) id = (v : Str) → same id v ≡ false → has v ≡ some text → ⊥

IsInjective-gives :
    (has : Str → Option Str) (text : Option Str) (id : Str)
    → IsInjective has
    → Free has text id
    → IsInjective (λ u. gives text id u (has u))
IsInjective-gives has none id inj free = inj
IsInjective-gives has (some text) id inj free = IsInjective-given has id text inj free

-- One more event keeps all unique, if what it gives is free.
pub IsUnique-append :
    (es : List UserEvent) (e : UserEvent) (id : Str) (name email : Option Str)
    → IsUnique es
    → All (λ a. Apart a e) es
    → ((u : Str) (c : Option Str) → next_name u c e.body ≡ gives name id u c)
    → ((u : Str) (c : Option Str) → next_email u c e.body ≡ gives email id u c)
    → Free (λ u. name_of u es) name id
    → Free (λ u. email_of u es) email id
    → IsUnique (es ++ e ∷ [])
IsUnique-append es e id name email h new_id to_name to_email free_name free_email = record {
  ids = Pairwise-append_one Apart es e h.ids new_id;
  names =
      IsInjective-same (λ u. gives name id u (name_of u es)) _
        (λ u. trace-append (λ c x. next_name u c x.body) none es (e ∷ []) ∙ to_name u _)
        (IsInjective-gives (λ u. name_of u es) name id h.names free_name);
  emails =
      IsInjective-same (λ u. gives email id u (email_of u es)) _
        (λ u. trace-append (λ c x. next_email u c x.body) none es (e ∷ []) ∙ to_email u _)
        (IsInjective-gives (λ u. email_of u es) email id h.emails free_email);
}
