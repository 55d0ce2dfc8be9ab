-- ===== src/Examples/Todo/Unique.antt =====
-- What the commands of the todo list create.
use fairway.Base.{
  ℕ, ◌≡◌, ◌≢◌, refl, inl, inr, false, Bool-cases, List, [], ◌∷◌, arith, All, Pairwise,
  Pairwise-append_one, filter,
}
use fairway.Base.Order.{ℕ_ord, list_ord, same, same_self}
use fairway.Fdb.{Str}
use fairway.Dcb.Types.{StoredEvent, Result}
use fairway.Command.Plans.{
  Format, RoundTrips, Plan, append, wanted, feed, decision, GivesUp, append-injective,
}
use fairway.Command.Plans.Written.{Written}
use fairway.Command.Plans.Sequential.{
  IsWellMade, Reaches, Sequential, empty, command, effect, Reaches-Sequential,
}
use fairway.Examples.Todo.{
  TodoEvent, list_created, item_created, AlreadyExists, CreateList, AddItem, note_list, note_item,
  create_list, add_item, todo_format,
}

pub data Created : Type 0 where
  a_list an_item : Str → Created

-- What an event creates.
abbrev pub created : TodoEvent → Created
created (list_created list_id name) = a_list list_id
created (item_created id list_id text) = an_item id

pub data TodoCommand : Type 0 where
  creates_list : CreateList → TodoCommand
  adds_item : AddItem → TodoCommand

abbrev pub plan : TodoCommand → Plan TodoEvent AlreadyExists
plan (creates_list cmd) = create_list cmd
plan (adds_item cmd) = add_item cmd

module _ (marshal : TodoEvent → Result (List ℕ)) (unmarshal : Str → List ℕ → Result TodoEvent) where
  abbrev format : Format TodoEvent
  format = todo_format marshal unmarshal

  list_free :
      (cmd : CreateList) (bs : List TodoEvent)
      → feed note_list false (filter (wanted format (create_list cmd).query) bs) ≡ false
      → All (λ b. created b ≢ a_list cmd.list_id) bs
  unfolding feed note_list create_list
  list_free cmd [] h = tt
  list_free cmd (item_created id l text ∷ bs) h = (λ e. cc e, list_free cmd bs h)
  list_free cmd (list_created l name ∷ bs) h = elim (Bool-cases (same cmd.list_id l)) [
    | inl s ↦ cc (rw s at h)
    | inr s ↦ (λ e. cc (s, e, same_self l), list_free cmd bs (rw s at h))
  ]

  item_free :
      (cmd : AddItem) (bs : List TodoEvent)
      → feed note_item false (filter (wanted format (add_item cmd).query) bs) ≡ false
      → All (λ b. created b ≢ an_item cmd.item_id) bs
  unfolding feed note_item add_item
  item_free cmd [] h = tt
  item_free cmd (list_created l name ∷ bs) h = (λ e. cc e, item_free cmd bs h)
  item_free cmd (item_created id l text ∷ bs) h = elim (Bool-cases (same cmd.item_id id)) [
    | inl s ↦ cc (rw s at h)
    | inr s ↦ (λ e. cc (s, e, same_self id), item_free cmd bs (rw s at h))
  ]

  -- A command appends one event, which creates what no event before has.
  decides_new :
      (c : TodoCommand) (bs : List TodoEvent) (e : TodoEvent) (es : List TodoEvent)
      → decision format (plan c) bs ≡ append e es
      → (es ≡ []) × All (λ b. created b ≢ created e) bs
  unfolding decision create_list add_item
  decides_new (creates_list cmd) bs e es h =
      elim (Bool-cases (feed note_list false (filter (wanted format (create_list cmd).query) bs))) [
        | inl taken ↦ cc (rw taken at h)
        | inr free ↦
            let (same_event, alone) = append-injective (rw free at h) in
            (alone, rw same_event (list_free cmd bs free))
      ]
  decides_new (adds_item cmd) bs e es h =
      elim (Bool-cases (feed note_item false (filter (wanted format (add_item cmd).query) bs))) [
        | inl taken ↦ cc (rw taken at h)
        | inr free ↦
            let (same_event, alone) = append-injective (rw free at h) in
            (alone, rw same_event (item_free cmd bs free))
      ]

  pub todo-GivesUp : (c : TodoCommand) → GivesUp (plan c)
  unfolding create_list add_item note_list note_item
  todo-GivesUp (creates_list cmd) h (list_created l name) stop = refl
  todo-GivesUp (creates_list cmd) h (item_created id l text) stop = cc stop
  todo-GivesUp (adds_item cmd) h (list_created l name) stop = cc stop
  todo-GivesUp (adds_item cmd) h (item_created id l text) stop = refl

  pub todo-IsWellMade : RoundTrips format → IsWellMade format plan
  todo-IsWellMade round_trips = record {
    round_trips = round_trips;
    room = λ c bs e es h. rw (decides_new c bs e es h).0 (omega arith);
  }

  Sequential-unique :
      (bs : List TodoEvent)
      → Sequential format plan (λ e. false) bs
      → Pairwise (λ a b. created a ≢ created b) bs
  Sequential-unique bs empty = tt
  Sequential-unique bs (effect old e cs before is eq) = cc is
  Sequential-unique bs (command old c e es cs before h eq) =
      let (alone, new) = decides_new c old e es h in
      rw eq (
        rw alone (
          Pairwise-append_one (λ a b. created a ≢ created b) old e (Sequential-unique old before)
            new))

-- If JSON round-trips, then in every log that clients reach with the commands of the todo list, with other
-- clients' appends between the read and the append of each, no two events create the same list or the
-- same item.
pub ids_unique :
    (marshal : TodoEvent → Result (List ℕ)) (unmarshal : Str → List ℕ → Result TodoEvent) {n : ℕ}
    {log : List StoredEvent}
    → RoundTrips (todo_format marshal unmarshal)
    → Reaches (todo_format marshal unmarshal) plan (λ e. false) n log
    → (bs : List TodoEvent) × Written (todo_format marshal unmarshal) log bs
      × Pairwise (λ a b. created a ≢ created b) bs
ids_unique marshal unmarshal round_trips r =
    let (bs, written, one_by_one) =
      Reaches-Sequential (todo_format marshal unmarshal) plan (λ e. false)
        (todo-IsWellMade marshal unmarshal round_trips) r in
    (bs, written, Sequential-unique marshal unmarshal bs one_by_one)
