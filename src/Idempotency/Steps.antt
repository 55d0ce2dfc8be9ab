-- ===== src/Idempotency/Steps.antt =====
-- The requests with one key, in any interleaving: each step is a transaction of one of them.
use fairway.Base.{
  some_injective, ℕ, suc, ◌^◌, ◌≤◌, ◌<◌, ◌≡◌, refl, ap, sym, ◌∙◌, true, false, List, [], ◌∷◌, none,
  some, arith, In, All, All-In, inl, inr, Bool-cases, Option-cases,
}
use fairway.Base.Order.{same_self, list_ord, ℕ_ord}
use fairway.Fdb.{element_ord, Tuple, Database}
use fairway.Idempotency.{
  Response, try_claim, store_result, poll_result, is_processing, encode_response, decode_response,
  idempotency_processing_marker, decode_response-encode_response,
}

try_claim-free :
    (D : Database) (d : D.Db) (key : Tuple)
    → D.get d key ≡ none
    → try_claim D d key
      ≡ record { db = D.set d key idempotency_processing_marker; claimed = true; existing = none }
unfolding try_claim
try_claim-free D d key h = rw (try_claim, h) refl

try_claim-taken :
    (D : Database) (d : D.Db) (key : Tuple) (val : List ℕ)
    → D.get d key ≡ some val
    → try_claim D d key ≡ record { db = d; claimed = false; existing = some val }
unfolding try_claim
try_claim-taken D d key val h = rw (try_claim, h) refl

existing_value :
    (D : Database) (d : D.Db) (key : Tuple) (val : List ℕ)
    → (try_claim D d key).existing ≡ some val
    → D.get d key ≡ some val
existing_value D d key val h = elim (Option-cases (D.get d key)) [
  | inl free ↦ cc (rw (try_claim-free D d key free) at h)
  | inr (v, taken) ↦ taken ∙ (rw (try_claim-taken D d key v taken) at h)
]

polled_value :
    (D : Database) (d : D.Db) (key : Tuple) (val : List ℕ)
    → poll_result D d key ≡ some val
    → (D.get d key ≡ some val) × (is_processing val ≡ false)
unfolding poll_result
polled_value D d key val h = elim (Option-cases (D.get d key)) [
  | inl free ↦ cc (rw (poll_result, free) at h)
  | inr (v, taken) ↦ elim (Bool-cases (is_processing v)) [
    | inl t ↦ cc (rw (poll_result, taken, t) at h)
    | inr f ↦
        let e : some v ≡ some val = rw (poll_result, taken, f) at h in
        (taken ∙ e, rw (← some_injective e) f)
  ]
]

module _ (D : Database) (key : Tuple) where
  -- `executions` counts the runs of the wrapped handler, `running` those whose response is not stored
  -- yet, and `answers` are the responses that requests were given.
  pub record State : Type 0 where
    pub db : D.Db
    pub executions : ℕ
    pub running : ℕ
    pub answers : List Response

  abbrev pub answered : State → Response → State
  answered s r = record s { answers = r ∷ s.answers }

  pub data Step : State → State → Type 0 where
    -- A request claims the key and runs the handler.
    claims :
        {s : State}
        → (try_claim D s.db key).claimed ≡ true
        → Step s (record {
          db = (try_claim D s.db key).db;
          executions = suc s.executions;
          running = suc s.running;
          answers = s.answers;
        })
    -- The handler of a request that claimed the key returns; its response is stored and written.
    completes :
        {s : State} {n : ℕ} (r : Response)
        → s.running ≡ suc n
        → r.status_code < 2 ^ 24
        → Step s (record {
          db = store_result D s.db key (encode_response r);
          executions = s.executions;
          running = n;
          answers = r ∷ s.answers;
        })
    -- A request finds the key taken, with a value that is not the marker.
    replays :
        {s : State} {val : List ℕ}
        → (try_claim D s.db key).existing ≡ some val
        → is_processing val ≡ false
        → Step s (answered s (decode_response val))
    -- A request that waits finds the value.
    wakes :
        {s : State} {val : List ℕ}
        → poll_result D s.db key ≡ some val
        → Step s (answered s (decode_response val))

  pub data Reaches : State → State → Type 0 where
    start : {s : State} → Reaches s s
    next : {s t u : State} → Reaches s t → Step t u → Reaches s u

  -- A database without the key, and no request yet.
  abbrev pub initial : D.Db → State
  initial d = record { db = d; executions = 0; running = 0; answers = [] }

  -- The three phases of a key: nobody came, its handler runs, its response is stored.
  data Phase (s : State) : Type 0 where
    untouched : D.get s.db key ≡ none → s.executions ≡ 0 → s.running ≡ 0 → s.answers ≡ [] → Phase s
    processing :
        D.get s.db key ≡ some idempotency_processing_marker
        → s.executions ≡ 1
        → s.running ≡ 1
        → s.answers ≡ []
        → Phase s
    finished :
        (r : Response)
        → r.status_code < 2 ^ 24
        → D.get s.db key ≡ some (encode_response r)
        → s.executions ≡ 1
        → s.running ≡ 0
        → All (λ a. a ≡ r) s.answers
        → Phase s

  Phase-claims :
      (s : State)
      → (try_claim D s.db key).claimed ≡ true
      → Phase s
      → Phase (record {
        db = (try_claim D s.db key).db;
        executions = suc s.executions;
        running = suc s.running;
        answers = s.answers;
      })
  Phase-claims s h (untouched g e r a) =
      processing
        (rw
          (
            try_claim-free D s.db key g,
            D.get-set s.db key key idempotency_processing_marker,
            same_self key,
          )
          refl)
        (ap suc e) (ap suc r) a
  Phase-claims s h (processing g e r a) = cc (rw (try_claim-taken D s.db key _ g) at h)
  Phase-claims s h (finished x small g e r a) = cc (rw (try_claim-taken D s.db key _ g) at h)

  Phase-completes :
      (s : State) (n : ℕ) (r : Response)
      → s.running ≡ suc n
      → r.status_code < 2 ^ 24
      → Phase s
      → Phase (record {
        db = store_result D s.db key (encode_response r);
        executions = s.executions;
        running = n;
        answers = r ∷ s.answers;
      })
  unfolding store_result
  Phase-completes s n r h small (untouched g e z a) = absurd (omega (arith, h, z))
  Phase-completes s n r h small (processing g e one a) =
      finished r small (rw (D.get-set s.db key key (encode_response r), same_self key) refl) e
        (omega (arith, h, one)) (refl, rw a tt)
  Phase-completes s n r h small (finished x fits g e z a) = absurd (omega (arith, h, z))

  marker_processing : is_processing idempotency_processing_marker ≡ true
  unfolding is_processing
  marker_processing = same_self idempotency_processing_marker

  -- A value that is not the marker is the stored response.
  Phase-answered :
      (s : State) (val : List ℕ)
      → D.get s.db key ≡ some val
      → is_processing val ≡ false
      → Phase s
      → Phase (answered s (decode_response val))
  Phase-answered s val h p (untouched g e r a) = cc (h, g)
  Phase-answered s val h p (processing g e r a) =
      let m : idempotency_processing_marker ≡ val = some_injective (sym g ∙ h) in
      cc (rw (← m) at p, marker_processing)
  Phase-answered s val h p (finished x small g e r a) =
      let m : encode_response x ≡ val = some_injective (sym g ∙ h) in
      finished x small g e r
        (rw (← m) (decode_response-encode_response x (omega (arith, small))), a)

  Phase-Step : {s t : State} → Step s t → Phase s → Phase t
  Phase-Step (claims {s} h) p = Phase-claims s h p
  Phase-Step (completes {s} {n} r h small) p = Phase-completes s n r h small p
  Phase-Step (replays {s} {val} h q) p = Phase-answered s val (existing_value D s.db key val h) q p
  Phase-Step (wakes {s} {val} h) p =
      let (g, q) = polled_value D s.db key val h in Phase-answered s val g q p

  Phase-Reaches : {s t : State} → Reaches s t → Phase s → Phase t
  Phase-Reaches start p = p
  Phase-Reaches (next r st) p = Phase-Step st (Phase-Reaches r p)

  Phase-agrees :
      (s : State)
      → Phase s
      → (s.executions ≤ 1) × ((x y : Response) → In x s.answers → In y s.answers → x ≡ y)
  Phase-agrees s (untouched g e r a) = (omega (arith, e), λ x y i j. elim (rw a at i) [ ])
  Phase-agrees s (processing g e r a) = (omega (arith, e), λ x y i j. elim (rw a at i) [ ])
  Phase-agrees s (finished z small g e r a) = (
    omega (arith, e),
    λ x y i j. All-In (λ b. b ≡ z) s.answers a i ∙ sym (All-In (λ b. b ≡ z) s.answers a j),
  )

-- From a database without the key, in any interleaving of the requests with it, and for responses with
-- status codes below 2^24, the handler runs once at most, and every request that is answered from the
-- handler or from the store is given the same response.
pub executes_once :
    (D : Database) (key : Tuple) (d : D.Db) (s : State D key)
    → D.get d key ≡ none
    → Reaches D key (initial D key d) s
    → (s.executions ≤ 1) × ((x y : Response) → In x s.answers → In y s.answers → x ≡ y)
executes_once D key d s h r =
    Phase-agrees D key s (Phase-Reaches D key r (untouched h refl refl refl))
