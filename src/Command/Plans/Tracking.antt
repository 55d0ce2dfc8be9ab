-- ===== src/Command/Plans/Tracking.antt =====
-- What the handler of a read knows of all the events, though it sees only those that its query selects.
use fairway.Base.{◌≡◌, refl, inl, inr, Bool, true, false, Bool-cases, List, [], ◌∷◌, ◌++◌, filter}
use fairway.Command.Plans.{feed}

-- A value that each event changes, after events.
abbrev pub trace : {E S : Type 0} → (S → E → S) → S → List E → S
trace next s [] = s
trace next s (e ∷ es) = trace next (next s e) es

pub trace-append :
    {E S : Type 0} (next : S → E → S) (s : S) (xs ys : List E)
    → trace next s (xs ++ ys) ≡ trace next (trace next s xs) ys
trace-append next s [] ys = refl
trace-append next s (x ∷ xs) ys = trace-append next (next s x) xs ys

module _ {E H S : Type 0} (handler : H → E → H × Bool) (wants : E → Bool) (goes : H → Bool)
    (next : S → E → S) (Knows : H → S → Type 0) where
  -- A relation of the handler's state to the value that each selected event keeps, and that no other event
  -- breaks, holds after a read that the handler has not stopped.
  pub feed-trace :
      ((h : H) (e : E) → (handler h e).1 ≡ false → goes (handler h e).0 ≡ false)
      → ((h : H) (s : S) (e : E)
          → (handler h e).1 ≡ true
          → Knows h s
          → Knows (handler h e).0 (next s e))
      → ((h : H) (s : S) (e : E) → wants e ≡ false → Knows h s → Knows h (next s e))
      → (h : H) (s : S) (es : List E) → Knows h s
      → goes (feed handler h (filter wants es)) ≡ true
      → Knows (feed handler h (filter wants es)) (trace next s es)
  unfolding feed
  feed-trace stops sees misses h s [] k on = k
  feed-trace stops sees misses h s (e ∷ es) k on = elim (Bool-cases (wants e)) [
    | inr passed ↦
        rw passed
          (feed-trace stops sees misses h (next s e) es (misses h s e passed k) (rw passed at on))
    | inl wanted ↦ elim (Bool-cases ((handler h e).1)) [
      | inr stop ↦ cc (rw (wanted, feed, stop) at on, stops h e stop)
      | inl more ↦
          rw (wanted, feed, more)
            (feed-trace stops sees misses (handler h e).0 (next s e) es (sees h s e more k)
              (rw (wanted, feed, more) at on))
    ]
  ]
