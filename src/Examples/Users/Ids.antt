-- ===== src/Examples/Users/Ids.antt =====
-- Which ids are registered, and what registering knows of them.
use fairway.Base.{
  ℕ, ◌≡◌, refl, inl, inr, Bool, true, false, Bool-cases, ◌||◌, not, List, [], ◌∷◌, All, arith,
  filter,
}
use fairway.Base.Order.{ℕ_ord, list_ord, same, same_self, same_iff}
use fairway.Fdb.{Str}
use fairway.Dcb.Types.{Result}
use fairway.Command.Plans.{wanted, feed}
use fairway.Command.Plans.Tracking.{trace, feed-trace}
use fairway.Examples.Users.{
  UserData, user_registered, user_changed_their_email, user_changed_their_name,
  user_changed_details, user_changed_their_password, user_welcome_email_sent, UserEvent,
  user_format, RegisterUser, RegisterSeen, nobody, see_for_register, register_user,
}

abbrev pub registers : Str → UserData → Bool
registers i (user_registered id name email hashed) = same id i
registers i (user_changed_their_email id previous new) = false
registers i (user_changed_their_name id previous new) = false
registers i (user_changed_details id bio image) = false
registers i (user_changed_their_password id hashed) = false
registers i (user_welcome_email_sent id) = false

none_registers :
    (i : Str) (before : Bool) (es : List UserEvent)
    → trace (λ b e. b || registers i e.body) before es ≡ false
    → (before ≡ false) × All (λ e. registers i e.body ≡ false) es
none_registers i before [] h = (h, tt)
none_registers i before (e ∷ es) h =
    let (first, rest) = none_registers i (before || registers i e.body) es h in
    (ground (arith, first), (ground (arith, first), rest))

module _ (cmd : RegisterUser) where
  -- An event at which the handler stops takes the id.
  stops_at_taken :
      (h : RegisterSeen) (t : ℕ) (b : UserData)
      → (see_for_register cmd h (record { occurred_at = t; body = b })).1 ≡ false
      → (see_for_register cmd h (record { occurred_at = t; body = b })).0.id_taken ≡ true
  unfolding see_for_register
  stops_at_taken h t (user_registered id name email hashed) stop =
      elim (Bool-cases (same id cmd.id)) [
        | inl taken ↦ rw taken refl
        | inr free ↦ cc (rw free at stop)
      ]
  stops_at_taken h t (user_changed_their_email id previous new) stop = cc stop
  stops_at_taken h t (user_changed_their_name id previous new) stop = cc stop
  stops_at_taken h t (user_changed_details id bio image) stop = cc stop
  stops_at_taken h t (user_changed_their_password id hashed) stop = cc stop
  stops_at_taken h t (user_welcome_email_sent id) stop = cc stop

  pub register_stops :
      (h : RegisterSeen) (e : UserEvent)
      → (see_for_register cmd h e).1 ≡ false
      → not (see_for_register cmd h e).0.id_taken ≡ false
  register_stops h e stop = rw (stops_at_taken h e.occurred_at e.body stop) refl

  id_sees :
      (h : RegisterSeen) (s : Bool) (t : ℕ) (b : UserData)
      → (see_for_register cmd h (record { occurred_at = t; body = b })).1 ≡ true
      → s ≡ false
      → (s || registers cmd.id b) ≡ false
  unfolding see_for_register
  id_sees h s t (user_registered id name email hashed) more k = elim (Bool-cases (same id cmd.id)) [
    | inl taken ↦ cc (rw taken at more)
    | inr free ↦ rw (k, free) refl
  ]
  id_sees h s t (user_changed_their_email id previous new) more k = rw k refl
  id_sees h s t (user_changed_their_name id previous new) more k = rw k refl
  id_sees h s t (user_changed_details id bio image) more k = rw k refl
  id_sees h s t (user_changed_their_password id hashed) more k = rw k refl
  id_sees h s t (user_welcome_email_sent id) more k = rw k refl

  module _ (marshal : UserEvent → Result (List ℕ)) (unmarshal : Str → List ℕ → Result UserEvent)
      (clock : ℕ) where
    abbrev wants : UserEvent → Bool
    wants e = wanted (user_format marshal unmarshal) (register_user cmd clock).query e

    id_misses :
        (s : Bool) (t : ℕ) (b : UserData)
        → wants (record { occurred_at = t; body = b }) ≡ false
        → s ≡ false
        → (s || registers cmd.id b) ≡ false
    unfolding register_user
    id_misses s t (user_registered id name email hashed) passed k =
        elim (Bool-cases (same id cmd.id)) [
          | inr free ↦ rw (k, free) refl
          | inl taken ↦
              let is : same cmd.id id ≡ true =
                rw ((same_iff id cmd.id).0 taken) (same_self cmd.id) in
              cc (rw is at passed)
        ]
    id_misses s t (user_changed_their_email id previous new) passed k = rw k refl
    id_misses s t (user_changed_their_name id previous new) passed k = rw k refl
    id_misses s t (user_changed_details id bio image) passed k = rw k refl
    id_misses s t (user_changed_their_password id hashed) passed k = rw k refl
    id_misses s t (user_welcome_email_sent id) passed k = rw k refl

    -- If the handler has not found the id taken, no event registers it.
    pub id_free :
        (es : List UserEvent)
        → (feed (see_for_register cmd) nobody (filter wants es)).id_taken ≡ false
        → All (λ e. registers cmd.id e.body ≡ false) es
    id_free es free =
        (none_registers cmd.id false es (
          feed-trace (see_for_register cmd) wants (λ h. not h.id_taken)
            (λ b e. b || registers cmd.id e.body) (λ h b. b ≡ false) register_stops
            (λ h s e. id_sees h s e.occurred_at e.body) (λ h s e. id_misses s e.occurred_at e.body)
            nobody false es refl (rw free refl))).1
