-- ===== src/Automation/Registry.antt =====
-- automation.go: the registry, which makes and starts automations one after the other.
use fairway.Base.{
  ◌≡◌, refl, ap, ◌∙◌, Bool, false, ◌||◌, inl, inr, Bool-cases, List, [], ◌∷◌, ◌++◌, Option, none,
  some, arith, any-append, if◌then◌else◌,
}
use fairway.Base.Order.{ℕ_ord, list_ord, same, same_sym}
use fairway.Fdb.{Str}
use fairway.Dcb.Types.{has, NoRepeat}

-- Why StartAll fails: a factory fails, a queue id comes twice, or `Start` fails.
pub data StartError : Type 0 where
  factory_failed start_failed : StartError
  duplicate_queue_id : Str → StartError

-- What a factory comes to: an error, or an automation, by its queue id and whether its `Start` succeeds.
pub data Made : Type 0 where
  not_made : Made
  made : Str → Bool → Made

-- The queue ids of the automations that run afterwards, and the error; on an error they are not stopped.
pub record StartOutcome : Type 0 where
  pub running : List Str
  pub error : Option StartError

unfoldable pub start_all : List Str → List Str → List Made → StartOutcome
start_all seen running [] = record { running = running; error = none }
start_all seen running (not_made ∷ factories) = record {
  running = running;
  error = some factory_failed;
}
start_all seen running (made queue_id starts ∷ factories) =
    let rest = start_all (queue_id ∷ seen) (running ++ queue_id ∷ []) factories in
    if has seen queue_id
    then record { running = running; error = some (duplicate_queue_id queue_id) }
    else if starts
    then rest
    else record { running = running; error = some start_failed }

has-snoc : (qs : List Str) (q x : Str) → has (qs ++ q ∷ []) x ≡ (same x q || has qs x)
has-snoc qs q x = any-append (same x) qs (q ∷ []) ∙ ground arith

NoRepeat-snoc : (qs : List Str) (q : Str) → NoRepeat qs → has qs q ≡ false → NoRepeat (qs ++ q ∷ [])
NoRepeat-snoc [] q n h = (refl, tt)
NoRepeat-snoc (x ∷ qs) q n h =
    let apart : same q x ≡ false = ground (arith, h) in
    let rest : has qs q ≡ false = ground (arith, h) in
    let other : same x q ≡ false = same_sym x q ∙ apart in
    (has-snoc qs q x ∙ ground (arith, other, n.0), NoRepeat-snoc qs q n.1 rest)

start_all-kept :
    (seen running : List Str) (factories : List Made)
    → ((x : Str) → has running x ≡ has seen x)
    → NoRepeat running
    → NoRepeat (start_all seen running factories).running
unfolding start_all
start_all-kept seen running [] h n = n
start_all-kept seen running (not_made ∷ factories) h n = n
start_all-kept seen running (made q starts ∷ factories) h n = elim (Bool-cases (has seen q)) [
  | inl t ↦ rw (start_all, t) n
  | inr f ↦ elim (Bool-cases starts) [
    | inl s ↦
        rw (start_all, f, s)
          (start_all-kept (q ∷ seen) (running ++ q ∷ []) factories
            (λ x. has-snoc running q x ∙ ap (λ b. same x q || b) (h x))
            (NoRepeat-snoc running q n (h q ∙ f)))
    | inr s ↦ rw (start_all, f, s) n
  ]
]

-- Whatever the factories come to, no two of the automations that run afterwards have the same queue id.
pub start_all-NoRepeat : (factories : List Made) → NoRepeat (start_all [] [] factories).running
start_all-NoRepeat factories = start_all-kept [] [] factories (λ x. refl) tt
