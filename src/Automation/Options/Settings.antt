-- ===== src/Automation/Options/Settings.antt =====
-- What the options of automation.go leave of the default configuration.
use fairway.Base.{
  ◌%◌, ◌^◌, ◌≡◌, refl, ◌∙◌, inl, inr, Bool, true, false, Bool-cases, ◌&&◌, List, [], ◌∷◌, any,
  arith, ltb, if◌then◌else◌,
}
use fairway.Automation.Types.{AutomationConfig, Int64}
use fairway.Automation.Options.Arguments
use fairway.Automation.Options.{
  AutomationOption, with_num_workers, with_lease_ttl, with_grace_period, with_max_attempts,
  with_batch_size, with_poll_interval, with_retry_base_wait, or_kept, apply_option, apply_options,
  default_config,
}

-- The 64 bits of a positive number
abbrev pub is_positive : Int64 → Bool
is_positive n = ltb 0 (n % 2 ^ 64) && ltb (n % 2 ^ 64) (2 ^ 63)

-- The last positive argument, or the old value if there is none
abbrev pub last_positive : Int64 → List Int64 → Int64
last_positive old [] = old
last_positive old (n ∷ ns) =
    let rest = last_positive old ns in
    if any is_positive ns then rest else if is_positive n then n else old

-- Each setting is the last positive one of its options.
abbrev pub settings : AutomationConfig → List AutomationOption → AutomationConfig
settings c os = record {
  num_workers = last_positive c.num_workers (Arguments.num_workers os);
  lease_ttl = last_positive c.lease_ttl (Arguments.lease_ttl os);
  grace_period = last_positive c.grace_period (Arguments.grace_period os);
  max_attempts = last_positive c.max_attempts (Arguments.max_attempts os);
  batch_size = last_positive c.batch_size (Arguments.batch_size os);
  poll_interval = last_positive c.poll_interval (Arguments.poll_interval os);
  retry_base_wait = last_positive c.retry_base_wait (Arguments.retry_base_wait os);
}

abbrev pub IsRunnable : AutomationConfig → Type 0
IsRunnable c =
    (is_positive c.num_workers ≡ true)
    × (is_positive c.lease_ttl ≡ true)
    × (is_positive c.grace_period ≡ true)
    × (is_positive c.max_attempts ≡ true)
    × (is_positive c.batch_size ≡ true)
    × (is_positive c.poll_interval ≡ true)
    × (is_positive c.retry_base_wait ≡ true)

or_kept-last : (n old : Int64) → (if is_positive n then n else old) ≡ or_kept n old
unfolding or_kept
or_kept-last n old = ground arith

last_positive-none :
    (old : Int64) (ns : List Int64) → any is_positive ns ≡ false → last_positive old ns ≡ old
last_positive-none old [] h = refl
last_positive-none old (n ∷ ns) h =
    let (first, others) : (is_positive n ≡ false) × (any is_positive ns ≡ false) =
      (ground (arith, h), ground (arith, h)) in
    rw (others, first) refl

last_positive-some :
    (old other : Int64) (ns : List Int64)
    → any is_positive ns ≡ true
    → last_positive old ns ≡ last_positive other ns
last_positive-some old other [] h = cc h
last_positive-some old other (n ∷ ns) h = elim (Bool-cases (any is_positive ns)) [
  | inl t ↦ rw t (last_positive-some old other ns t)
  | inr f ↦ let first : is_positive n ≡ true = ground (arith, h, f) in rw (f, first) refl
]

last_positive-cons :
    (old n : Int64) (ns : List Int64)
    → last_positive (or_kept n old) ns ≡ last_positive old (n ∷ ns)
last_positive-cons old n ns = elim (Bool-cases (any is_positive ns)) [
  | inl t ↦ rw t (last_positive-some (or_kept n old) old ns t)
  | inr f ↦ rw (last_positive-none (or_kept n old) ns f, f, or_kept-last n old) refl
]

last_positive-positive :
    (old : Int64) (ns : List Int64)
    → is_positive old ≡ true
    → is_positive (last_positive old ns) ≡ true
last_positive-positive old [] h = h
last_positive-positive old (n ∷ ns) h = elim (Bool-cases (any is_positive ns)) [
  | inl t ↦ rw t (last_positive-positive old ns h)
  | inr f ↦ elim (Bool-cases (is_positive n)) [ inl p ↦ rw (f, p) p | inr q ↦ rw (f, q) h ]
]

apply_options-settings :
    (c : AutomationConfig) (os : List AutomationOption) → apply_options os c ≡ settings c os
unfolding apply_options apply_option
apply_options-settings c [] = refl
apply_options-settings c (with_num_workers n ∷ os) =
    apply_options-settings (apply_option (with_num_workers n) c) os
    ∙ rw (last_positive-cons c.num_workers n (Arguments.num_workers os)) refl
apply_options-settings c (with_lease_ttl n ∷ os) =
    apply_options-settings (apply_option (with_lease_ttl n) c) os
    ∙ rw (last_positive-cons c.lease_ttl n (Arguments.lease_ttl os)) refl
apply_options-settings c (with_grace_period n ∷ os) =
    apply_options-settings (apply_option (with_grace_period n) c) os
    ∙ rw (last_positive-cons c.grace_period n (Arguments.grace_period os)) refl
apply_options-settings c (with_max_attempts n ∷ os) =
    apply_options-settings (apply_option (with_max_attempts n) c) os
    ∙ rw (last_positive-cons c.max_attempts n (Arguments.max_attempts os)) refl
apply_options-settings c (with_batch_size n ∷ os) =
    apply_options-settings (apply_option (with_batch_size n) c) os
    ∙ rw (last_positive-cons c.batch_size n (Arguments.batch_size os)) refl
apply_options-settings c (with_poll_interval n ∷ os) =
    apply_options-settings (apply_option (with_poll_interval n) c) os
    ∙ rw (last_positive-cons c.poll_interval n (Arguments.poll_interval os)) refl
apply_options-settings c (with_retry_base_wait n ∷ os) =
    apply_options-settings (apply_option (with_retry_base_wait n) c) os
    ∙ rw (last_positive-cons c.retry_base_wait n (Arguments.retry_base_wait os)) refl

settings-IsRunnable :
    (c : AutomationConfig) (os : List AutomationOption) → IsRunnable c → IsRunnable (settings c os)
settings-IsRunnable c os h = (
  last_positive-positive c.num_workers (Arguments.num_workers os) h.0,
  last_positive-positive c.lease_ttl (Arguments.lease_ttl os) h.1,
  last_positive-positive c.grace_period (Arguments.grace_period os) h.2,
  last_positive-positive c.max_attempts (Arguments.max_attempts os) h.3,
  last_positive-positive c.batch_size (Arguments.batch_size os) h.4,
  last_positive-positive c.poll_interval (Arguments.poll_interval os) h.5,
  last_positive-positive c.retry_base_wait (Arguments.retry_base_wait os) h.6,
)

-- Whatever options are given, in whatever order, each setting of the configuration is the last argument
-- of the options for it that is positive as a signed number, or the default if none is; and it is
-- positive.
pub apply_options-IsRunnable :
    (os : List AutomationOption)
    → (apply_options os default_config ≡ settings default_config os)
      × IsRunnable (apply_options os default_config)
unfolding default_config
apply_options-IsRunnable os =
    let is = apply_options-settings default_config os in
    (is, rw is (settings-IsRunnable default_config os (refl, refl, refl, refl, refl, refl, refl)))
