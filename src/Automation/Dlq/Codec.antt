-- ===== src/Automation/Dlq/Codec.antt =====
-- The value of an entry of the dead letter queue: what is written is read back, up to a length.
use fairway.Base.{
  ℕ, ◌+◌, ◌%◌, ◌^◌, ◌≤◌, ◌<◌, ◌≡◌, refl, ap, ◌∙◌, true, false, List, [], ◌∷◌, some, arith, length,
  take, drop, ltb,
}
use fairway.Base.Bytes.{be_bytes, of_be, of_be-be_bytes}
use fairway.Fdb.{Str, Tuple}
use fairway.Automation.Types.{Job, Outcome, done, panicked, ◌>>=◌, unpack_in}
use fairway.Automation.Dlq.{encode_dlq, decode_dlq, error_text, error_slice, enqueued_at}

take_all {ℓ} : {A : Type ℓ} (xs : List A) → take (length xs) xs ≡ xs
take_all [] = refl
take_all (x ∷ xs) = ap (λ r. x ∷ r) (take_all xs)

decode_by_parts :
    (dlq_dir key : Tuple) (value : List ℕ) (n : ℕ) (slice : Outcome Str)
    → of_be (take 2 (drop 13 value)) ≡ n
    → length value ≡ 15 + n
    → error_slice value n ≡ slice
    → decode_dlq dlq_dir key value ≡ (
        slice >>= λ error. unpack_in dlq_dir key >>= λ key_tuple. done (record {
          key = key;
          enqueued_at = enqueued_at key_tuple;
          event_vs = of_be (take 12 value);
          attempts = of_be (take 1 (drop 12 value));
          error = error;
        }))
unfolding decode_dlq
decode_by_parts dlq_dir key value n slice at size cut =
    let enough : ltb (15 + n) 15 ≡ false = ground arith in
    let whole : ltb (15 + n) (15 + n) ≡ false = ground arith in
    rw (at, size, enough, whole, cut) refl

module _ (j : Job) (s : Str) (short : length s ≤ 65535) where
  text_kept : error_text (some s) ≡ s
  unfolding error_text
  text_kept =
      let not_over : ltb 65535 (length s) ≡ false = ground (arith, short) in rw not_over refl

  length_at : of_be (take 2 (drop 13 (encode_dlq j (some s)))) ≡ length s
  unfolding encode_dlq be_bytes
  length_at = rw text_kept (of_be-be_bytes 2 (length s) (omega (arith, short)))

  length-encode_dlq : length (encode_dlq j (some s)) ≡ 15 + length s
  unfolding encode_dlq be_bytes
  length-encode_dlq = rw text_kept (omega arith)

  error_at : take (length s) (drop 15 (encode_dlq j (some s))) ≡ s
  unfolding encode_dlq be_bytes
  error_at = rw text_kept (take_all s)

  event_at : j.event_vs < 2 ^ 96 → of_be (take 12 (encode_dlq j (some s))) ≡ j.event_vs
  unfolding encode_dlq be_bytes
  event_at fits = of_be-be_bytes 12 j.event_vs fits

  attempts_at : j.attempts < 256 → of_be (take 1 (drop 12 (encode_dlq j (some s)))) ≡ j.attempts
  unfolding encode_dlq be_bytes
  attempts_at fits = of_be-be_bytes 1 j.attempts fits

slice-whole :
    (j : Job) (s : Str) → length s ≤ 65520 → error_slice (encode_dlq j (some s)) (length s) ≡ done s
unfolding error_slice
slice-whole j s short =
    let no_wrap : ltb ((15 + length s) % 65536) 15 ≡ false = ground (arith, short) in
    rw (no_wrap, error_at j s (omega (arith, short))) refl

slice-wraps :
    (j : Job) (s : Str)
    → 65520 < length s
    → length s ≤ 65535
    → error_slice (encode_dlq j (some s)) (length s) ≡ panicked
unfolding error_slice
slice-wraps j s long short =
    let wraps : ltb ((15 + length s) % 65536) 15 ≡ true = ground (arith, long, short) in
    rw wraps refl

-- An entry of the dead letter queue is read back from its value: the event, the attempts and the whole
-- text of the error, if the text has at most 65520 bytes and the key lies in the queue.
pub decode_dlq-encode_dlq :
    (dlq_dir key key_tuple : Tuple) (j : Job) (s : Str)
    → j.event_vs < 2 ^ 96
    → j.attempts < 256
    → length s ≤ 65520
    → unpack_in dlq_dir key ≡ done key_tuple
    → decode_dlq dlq_dir key (encode_dlq j (some s))
      ≡ done (record {
        key = key;
        enqueued_at = enqueued_at key_tuple;
        event_vs = j.event_vs;
        attempts = j.attempts;
        error = s;
      })
decode_dlq-encode_dlq dlq_dir key key_tuple j s fit_vs fit_attempts short lies =
    let at_most : length s ≤ 65535 = omega (arith, short) in
    decode_by_parts dlq_dir key (encode_dlq j (some s)) (length s) (done s) (length_at j s at_most)
      (length-encode_dlq j s at_most) (slice-whole j s short)
    ∙ rw (lies, event_at j s at_most fit_vs, attempts_at j s at_most fit_attempts) refl

-- An error text of 65521 bytes to 65535 is written, and then reading its entry panics: the end of the
-- slice is a sum that wraps at 65536.
pub decode_dlq_panics :
    (dlq_dir key : Tuple) (j : Job) (s : Str)
    → 65520 < length s
    → length s ≤ 65535
    → decode_dlq dlq_dir key (encode_dlq j (some s)) ≡ panicked
decode_dlq_panics dlq_dir key j s long short =
    decode_by_parts dlq_dir key (encode_dlq j (some s)) (length s) panicked (length_at j s short)
      (length-encode_dlq j s short) (slice-wraps j s long short)
