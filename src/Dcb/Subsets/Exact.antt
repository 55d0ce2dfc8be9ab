-- ===== src/Dcb/Subsets/Exact.antt =====
-- Which subsets `generate_all_subsets` lists, and how a query's tags are found among them.
use native.Mathlib.Nat.{pow-suc, div-div-eq-div-mul, pow-le-pow_right}
use fairway.Base.{
  ℕ, zero, suc, ◌+◌, ◌-◌, ◌*◌, ◌/◌, ◌%◌, ◌^◌, ◌≤◌, ◌<◌, ◌≡◌, ◌≢◌, ◌↔◌, refl, sym, ap, subst, ◌∙◌,
  inl, inr, List, [], ◌∷◌, arith, ◌==◌, if◌then◌else◌, Bool-cases, In, here, there, length,
}
use fairway.Base.Order.{ℕ_ord, list_ord}
use fairway.Base.Sort.{sort, length-sort}
use fairway.Fdb.{Str}
use fairway.Dcb.Subsets.{
  sort_tags, pick, subsets_from, total_subsets, generate_all_subsets, Chosen, done, keep, leave,
}

-- The same choice, read from the low bit up.
pick_low : ℕ → List Str → List Str
pick_low m [] = []
pick_low m (t ∷ ts) = let rest = pick_low (m / 2) ts in if m % 2 == 1 then t ∷ rest else rest

half_shift : (m i : ℕ) → m / 2 ^ suc i ≡ m / 2 ^ i / 2
half_shift m i = rw (pow-suc 2 i) (sym (div-div-eq-div-mul m (2 ^ i) 2))

pick-pick_low : (m i : ℕ) (ts : List Str) → pick m i ts ≡ pick_low (m / 2 ^ i) ts
unfolding pick pick_low
pick-pick_low m i [] = refl
pick-pick_low m i (t ∷ ts) = rw (pick-pick_low m (suc i) ts, half_shift m i) refl

pick-zero : (m : ℕ) (ts : List Str) → pick m 0 ts ≡ pick_low m ts
pick-zero m ts = rw (pick-pick_low m 0 ts) (ap (λ k. pick_low k ts) (omega arith))

pick_low-Chosen : (m : ℕ) (ts : List Str) → Chosen (pick_low m ts) ts
unfolding pick_low
pick_low-Chosen m [] = done
pick_low-Chosen m (t ∷ ts) = elim (Bool-cases (m % 2 == 1)) [
  | inl e ↦ rw e (keep (pick_low-Chosen (m / 2) ts))
  | inr e ↦ rw e (leave (pick_low-Chosen (m / 2) ts))
]

mask_of : {s ts : List Str} → Chosen s ts → ℕ
mask_of done = 0
mask_of (keep c) = 1 + 2 * mask_of c
mask_of (leave c) = 2 * mask_of c

mask_of-lt : {s ts : List Str} (c : Chosen s ts) → mask_of c < 2 ^ length ts
unfolding mask_of
mask_of-lt done = omega arith
mask_of-lt (keep {ts = ts} c) = omega (arith, mask_of-lt c, pow-suc 2 (length ts))
mask_of-lt (leave {ts = ts} c) = omega (arith, mask_of-lt c, pow-suc 2 (length ts))

pick_low-mask_of : {s ts : List Str} (c : Chosen s ts) → pick_low (mask_of c) ts ≡ s
unfolding pick_low mask_of
pick_low-mask_of done = refl
pick_low-mask_of (keep c) =
    let half : (1 + 2 * mask_of c) / 2 ≡ mask_of c = omega arith in
    let odd : (1 + 2 * mask_of c) % 2 ≡ 1 = omega arith in rw (odd, half, pick_low-mask_of c) refl
pick_low-mask_of (leave c) =
    let half : 2 * mask_of c / 2 ≡ mask_of c = omega arith in
    let even : 2 * mask_of c % 2 ≡ 0 = omega arith in rw (even, half, pick_low-mask_of c) refl

pick_low-zero : (ts : List Str) → pick_low 0 ts ≡ []
unfolding pick_low
pick_low-zero [] = refl
pick_low-zero (t ∷ ts) = pick_low-zero ts

pick_low-ne : (m : ℕ) (ts : List Str) → 0 < m → m < 2 ^ length ts → pick_low m ts ≢ []
unfolding pick_low
pick_low-ne m [] p h e = omega arith
pick_low-ne m (t ∷ ts) p h e = elim (Bool-cases (m % 2 == 1)) [
  | inl odd ↦ cc (rw odd at e)
  | inr even ↦
      pick_low-ne (m / 2) ts (ground arith) (omega (arith, pow-suc 2 (length ts))) (rw even at e)
]

subsets_from-In :
    (count start : ℕ) (s : List Str) (ts : List Str)
    → In s (subsets_from count start ts)
    → (m : ℕ) × (start ≤ m) × (m < start + count) × (s ≡ pick m 0 ts)
unfolding subsets_from
subsets_from-In zero start s ts i = elim i [ ]
subsets_from-In (suc count) start s ts (here e) = (start, omega arith, omega arith, e)
subsets_from-In (suc count) start s ts (there i) =
    let (m, low, high, e) = subsets_from-In count (suc start) s ts i in
    (m, omega arith, omega arith, e)

In-subsets_from :
    (count start m : ℕ) (ts : List Str)
    → start ≤ m
    → m < start + count
    → In (pick m 0 ts) (subsets_from count start ts)
unfolding subsets_from
In-subsets_from zero start m ts low high = absurd (omega arith)
In-subsets_from (suc count) start m ts low high = elim (Bool-cases (start == m)) [
  | inl e ↦ here (ap (λ k. pick k 0 ts) (ground arith))
  | inr e ↦ there (In-subsets_from count (suc start) m ts (ground arith) (omega arith))
]

total_subsets-pow : (n : ℕ) → n < 63 → total_subsets n ≡ 2 ^ n - 1
unfolding total_subsets
total_subsets-pow n h =
    let low : 2 ^ 0 ≤ 2 ^ n =
      pow-le-pow_right {n = 2} (omega arith) {i = 0} {j = n} (omega arith) in
    let high : 2 ^ n ≤ 2 ^ 62 =
      pow-le-pow_right {n = 2} (omega arith) {i = n} {j = 62} (omega arith) in
    ground arith

-- The masks from 1 up to 2 ^ n - 1 select exactly the choices that are not empty.
masks-exact :
    (s ts : List Str)
    → length ts < 63
    → In s (subsets_from (total_subsets (length ts)) 1 ts) ↔ ((s ≢ []) × Chosen s ts)
masks-exact s ts short = (sound, λ h. complete h.0 h.1)
  where
    sound : In s (subsets_from (total_subsets (length ts)) 1 ts) → (s ≢ []) × Chosen s ts
    sound i =
        let (m, low, high, e) = subsets_from-In _ 1 s ts i in
        let fits : m < 2 ^ length ts = omega (arith, total_subsets-pow (length ts) short) in
        rw (e, pick-zero m ts) (pick_low-ne m ts low fits, pick_low-Chosen m ts)

    complete : s ≢ [] → Chosen s ts → In s (subsets_from (total_subsets (length ts)) 1 ts)
    complete ne c = elim (Bool-cases (0 == mask_of c)) [
      | inl e ↦
          let none : mask_of c ≡ 0 = ground arith in
          absurd (ne (rw none at (sym (pick_low-mask_of c)) ∙ pick_low-zero ts))
      | inr e ↦
          subst (λ t. In t (subsets_from (total_subsets (length ts)) 1 ts))
            (pick-zero (mask_of c) ts ∙ pick_low-mask_of c)
            (In-subsets_from (total_subsets (length ts)) 1 (mask_of c) ts (ground arith)
              (omega (arith, total_subsets-pow (length ts) short, mask_of-lt c)))
    ]

Chosen-nil : {s : List Str} → Chosen s [] → s ≡ []
Chosen-nil done = refl

-- For fewer than 63 tags, a list of tags is among the listed subsets if and only if it is not empty and
-- is left of the sorted tags when some of them are dropped.
pub generate_all_subsets-exact :
    (tags s : List Str)
    → length tags < 63
    → In s (generate_all_subsets tags) ↔ ((s ≢ []) × Chosen s (sort_tags tags))
unfolding generate_all_subsets sort_tags
generate_all_subsets-exact [] s h = (λ i. elim i [ ], λ c. absurd (c.0 (Chosen-nil c.1)))
generate_all_subsets-exact (t ∷ ts) s h =
    masks-exact s (sort (t ∷ ts)) (omega (arith, length-sort (t ∷ ts)))

pow_wraps : (k : ℕ) → 2 ^ (k + 64) % 2 ^ 64 ≡ 0
pow_wraps zero = refl
pow_wraps (suc k) =
    let e : suc k + 64 ≡ suc (k + 64) = omega arith in
    rw e (omega (arith, pow-suc 2 (k + 64), pow_wraps k))

-- With 64 tags or more the 64-bit shift leaves 0, the loop runs no round, and no subset is listed.
pub generate_all_subsets_overflow :
    (tags : List Str) → 64 ≤ length tags → generate_all_subsets tags ≡ []
unfolding generate_all_subsets sort_tags
generate_all_subsets_overflow [] h = refl
generate_all_subsets_overflow (t ∷ ts) h = rw none refl
  where
    none : total_subsets (length (sort (t ∷ ts))) ≡ 0
    none =
        let e : length (t ∷ ts) ≡ (length (t ∷ ts) - 64) + 64 = omega arith in
        rw (length-sort (t ∷ ts), e) (unfold total_subsets in rw pow_wraps refl)
