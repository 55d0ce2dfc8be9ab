-- ===== src/Dcb/Log/TypeRange.antt =====
-- A range of the type index against the log.
use fairway.Base.{
  ℕ, ◌≡◌, refl, sym, ap, subst, ◌∙◌, Bool, true, ◌&&◌, List, [], ◌∷◌, ◌++◌, Option, some, arith,
  here, there, &&_true,
}
use fairway.Base.Order.{ℕ_ord, list_ord, same, same_iff, same_self}
use fairway.Fdb.{Str, Tuple, text, stamp, Database, Beneath}
use fairway.Dcb.Types.{Versionstamp, to_stamp, StoredEvent}
use fairway.Dcb.Index.{FdbStore, new_store, range_of}
use fairway.Dcb.Log.{Represents, is_after}
use fairway.Dcb.Log.Keys.{Written, in_events, in_types, in_tags, writes-cases, kind}
use fairway.Dcb.Log.Rows.{row_of_get, range_of-Beneath, range_of-starts}
use fairway.Dcb.Log.Ranges.{Reads}

module _ (D : Database) (namespace : Str) (d : D.Db) (log : List StoredEvent)
    (rep : Represents D namespace d log) where
  open D use {get, scan, starts, stops, scan_sound}

  abbrev pub store : FdbStore
  store = new_store namespace

  abbrev pub type_range : Str → Tuple
  type_range t = store.by_type ++ text t ∷ []

  abbrev pub in_type : Str → Option Versionstamp → StoredEvent → Bool
  in_type t after e = is_after after e.position && (same t e.event.event_type && true)

  -- A key beneath the type's subspace was written for an event of the type.
  type_key :
      (t : Str) (k : Tuple) (v : List ℕ) (e : StoredEvent)
      → Beneath (type_range t) k
      → Written D namespace e k v
      → (t ≡ e.event.event_type) × (k ≡ type_range t ++ stamp (to_stamp e.position) ∷ [])
  unfolding kind
  type_key t k v e (x, r, h) (in_events h' w) = absurd (omega (arith, ap kind h, ap kind h'))
  type_key t k v e (x, r, h) (in_types h' w) =
      let both = sym h ∙ h' in
      let same_type : t ≡ e.event.event_type = cc both in (same_type, rw same_type h')
  type_key t k v e (x, r, h) (in_tags s i h' w) = absurd (omega (arith, ap kind h, ap kind h'))

  -- The range of a type reads the events of the type after the bound.
  pub type_range-Reads :
      (t : Str) (after : Option Versionstamp)
      → Reads D d log (type_range t) (range_of D (type_range t) after) (in_type t after)
  type_range-Reads t after = record {
    sound = λ k v i.
        let (g, b, u) = scan_sound d _ k v i in
        let under = range_of-Beneath D (type_range t) k after b u in
        let (_, _, shape) = under in
        let (e, j, w) = rep.sound _ v (subst (λ x. get d x ≡ some v) shape g) in
        let wrote : Written D namespace e k v =
          subst (λ x. Written D namespace e x v) (sym shape) (writes-cases D namespace e _ v w) in
        let (ty, place) = type_key t k v e under wrote in
        let late : is_after after e.position ≡ true =
          sym (range_of-starts D (type_range t) after e.position)
          ∙ subst (λ x. starts (range_of D (type_range t) after).begin x ≡ true) place b in
        (e, j, rw (late, ← ty, same_self t) refl, place);
    complete = λ e i yes_in.
        let (late, is) =
          &&_true {a = is_after after e.position} {b = same t e.event.event_type && true} yes_in in
        let (st, ok_then) = &&_true {a = same t e.event.event_type} {b = true} is in
        let ty : t ≡ e.event.event_type = (same_iff t e.event.event_type).0 st in
        (
          [],
          row_of_get D d (type_range t) after e.position []
              (rw ty (rep.complete e _ [] i (there (here refl)))) late,
        );
  }
