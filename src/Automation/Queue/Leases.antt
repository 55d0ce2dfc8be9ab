-- ===== src/Automation/Queue/Leases.antt =====
-- Leases: a claim keeps the job from every other worker until it runs out.
use fairway.Base.{
  some_injective, ℕ, suc, ◌≡◌, refl, sym, subst, ◌∙◌, false, not, ◌&&◌, inl, inr, Bool-cases, List,
  [], ◌∷◌, some, In, here, there, ◌==◌, take, length, Option-cases,
}
use fairway.Base.Order.{same, same_self, list_ord}
use fairway.Fdb.{element_ord, Tuple, Database}
use fairway.Dcb.Types.{Versionstamp}
use fairway.Automation.Types.{
  done_injective, Int64, later, Automation, Job, Outcome, done, failed, panicked,
}
use fairway.Automation.Jobs.{encode_job, decode_job}
use fairway.Automation.Queue.{
  claimable, leased, claim_first, with_event, available, limited, dequeue,
  extract_event_vs_from_job_key,
}

-- What a claim says of the row that it takes.
pub record Claim (a : Automation) (now : Int64) (key : Tuple) (value : List ℕ) (job : Job)
    : Type 0 where
  pub stored : Job
  pub decodes : decode_job key value ≡ done stored
  pub vested : later stored.vesting_ns now ≡ false
  pub free : (not (stored.owner_id == 0) && later stored.expiry_ns now) ≡ false
  pub event : extract_event_vs_from_job_key a.queue_dir key ≡ done job.event_vs
  pub key_kept : job.key ≡ stored.key
  pub vesting_kept : job.vesting_ns ≡ stored.vesting_ns
  pub attempts_kept : job.attempts ≡ stored.attempts
  pub lease_kept : job.lease_vs ≡ stored.lease_vs

with_event-Claim :
    (a : Automation) (now : Int64) (key : Tuple) (value : List ℕ) (job j : Job)
    (e : Outcome Versionstamp)
    → decode_job key value ≡ done j
    → later j.vesting_ns now ≡ false
    → (not (j.owner_id == 0) && later j.expiry_ns now) ≡ false
    → extract_event_vs_from_job_key a.queue_dir key ≡ e
    → with_event a j e ≡ some job
    → Claim a now key value job
with_event-Claim a now key value job j (failed e) d v f x h = cc
with_event-Claim a now key value job j panicked d v f x h = cc
with_event-Claim a now key value job j (done vs) d v f x h =
    subst (λ y. Claim a now key value y) (some_injective h)
      (record {
        stored = j;
        decodes = d;
        vested = v;
        free = f;
        event = x;
        key_kept = refl;
        vesting_kept = refl;
        attempts_kept = refl;
        lease_kept = refl;
      })

available-Claim :
    (a : Automation) (now : Int64) (key : Tuple) (value : List ℕ) (job : Job) (o : Outcome Job)
    → decode_job key value ≡ o
    → available a now key o ≡ some job
    → Claim a now key value job
available-Claim a now key value job (failed e) d h = cc
available-Claim a now key value job panicked d h = cc
available-Claim a now key value job (done j) d h = elim (Bool-cases (later j.vesting_ns now)) [
  | inl t ↦ cc (rw t at h)
  | inr vested ↦ elim (Bool-cases (not (j.owner_id == 0) && later j.expiry_ns now)) [
    | inl t ↦ cc (rw (vested, t) at h)
    | inr free ↦
        with_event-Claim a now key value job j _ d vested free refl (rw (vested, free) at h)
  ]
]

-- What a dequeue did: it took the row of `job`, stored `job` there, and touched no other key.
pub record Claimed (D : Database) (a : Automation) (now : Int64) (d d' : D.Db) (job : Job)
    : Type 0 where
  pub value : List ℕ
  pub before : Job
  pub was : D.get d job.key ≡ some value
  pub claim : Claim a now job.key value before
  pub is : job ≡ leased a now before
  pub stored_now : D.get d' job.key ≡ some (encode_job job)
  pub others : (k : Tuple) → same job.key k ≡ false → D.get d' k ≡ D.get d k

decoded_key : (key : Tuple) (value : List ℕ) (j : Job) → decode_job key value ≡ done j → j.key ≡ key
unfolding decode_job
decoded_key key value j h = elim (Bool-cases (length value == 45)) [
  | inl t ↦ cc (rw t at h)
  | inr f ↦ cc (rw f at h)
]

module _ (D : Database) (a : Automation) where
  open D use {Db, get, set, scan}

  taken-Claimed :
      (d : Db) (now : Int64) (key : Tuple) (value : List ℕ) (j : Job)
      → get d key ≡ some value
      → Claim a now key value j
      → Claimed D a now d (set d key (encode_job (leased a now j))) (leased a now j)
  unfolding leased
  taken-Claimed d now key value j stored c =
      let e : key ≡ j.key = sym (c.key_kept ∙ decoded_key key value c.stored c.decodes) in
      record {
        value = value;
        before = j;
        was = rw e at stored;
        claim = subst (λ k. Claim a now k value j) e c;
        is = refl;
        stored_now =
            rw (e, D.get-set d j.key j.key (encode_job (leased a now j)), same_self j.key) refl;
        others = λ k other. rw (e, D.get-set d j.key k (encode_job (leased a now j)), other) refl;
      }

  claim_first-Claimed :
      (d d' : Db) (now : Int64) (rows : List (Tuple × List ℕ)) (job : Job)
      → ((k : Tuple) (v : List ℕ) → In (k, v) rows → get d k ≡ some v)
      → claim_first D a d now rows ≡ done (d', job)
      → Claimed D a now d d' job
  unfolding claim_first
  claim_first-Claimed d d' now [] job stored h = cc
  claim_first-Claimed d d' now ((key, value) ∷ rows) job stored h =
      elim (Option-cases (claimable a now key value)) [
        | inl skipped ↦
            claim_first-Claimed d d' now rows job (λ k v i. stored k v (there i))
              (rw (claim_first, skipped) at h)
        | inr (j, taken) ↦
            subst (λ (p : Db × Job). Claimed D a now d p.0 p.1)
              (done_injective (rw (claim_first, taken) at h))
              (taken-Claimed d now key value j (stored key value (here refl))
                (available-Claim a now key value j _ refl taken))
      ]

  take-In :
      (n : ℕ) (rows : List (Tuple × List ℕ)) (r : Tuple × List ℕ) → In r (take n rows) → In r rows
  take-In ℕ.zero rows r i = elim i [ ]
  take-In (suc n) [] r i = elim i [ ]
  take-In (suc n) (x ∷ rows) r (here e) = here e
  take-In (suc n) (x ∷ rows) r (there i) = there (take-In n rows r i)

  limited-In :
      (n : ℕ) (rows : List (Tuple × List ℕ)) (r : Tuple × List ℕ)
      → In r (limited n rows)
      → In r rows
  limited-In n rows r i = elim (Bool-cases (n == 0)) [
    | inl t ↦ rw t at i
    | inr f ↦ take-In n rows r (rw f at i)
  ]

  -- A dequeue that returns a job took a row of the queue that was vested and free or with a lease that
  -- ran out, returns that job with the event of its key, owned by this worker until the lease ends, stores
  -- it at its key, and leaves every other key as it was.
  pub dequeue-Claimed :
      (d d' : Db) (now : Int64) (job : Job)
      → dequeue D a d now ≡ done (d', job)
      → Claimed D a now d d' job
  unfolding dequeue
  dequeue-Claimed d d' now job h =
      let rows : List (Tuple × List ℕ) = scan d (D.range_keys a.queue_dir) in
      claim_first-Claimed d d' now (limited a.config.batch_size rows) job
        (λ k v i.
          (D.scan_sound d (D.range_keys a.queue_dir) k v
            (limited-In a.config.batch_size rows (k, v) i)).0)
        h
