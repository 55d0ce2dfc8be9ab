-- ===== src/Dcb/Log/Ranges.antt =====
-- A range of an index subspace against the log: its rows stand for the events that a test picks.
use fairway.Base.{
  ℕ, ◌<◌, ◌≡◌, sym, ap, subst, ◌∙◌, Bool, true, List, [], ◌∷◌, ◌++◌, map, arith, In, In-map,
  In-map_of, All, All-of_In, Pairwise, ltb, ltb→lt,
}
use fairway.Fdb.{Tuple, stamp, suffixed, Database, KeyRange}
use fairway.Dcb.Types.{Versionstamp, to_stamp, StoredEvent}
use fairway.Dcb.Index.{extract_versionstamp}
use fairway.Dcb.Append.{some_row}
use fairway.Dcb.Log.Rows.{some_row-In, In-some_row, stamp_ltb-to_stamp}

-- The versionstamp at the end of a key is read back.
pub extract_versionstamp-append :
    (ss : Tuple) (p : Versionstamp) → extract_versionstamp (ss ++ stamp (to_stamp p) ∷ []) ≡ p
unfolding extract_versionstamp
extract_versionstamp-append [] p = omega arith
extract_versionstamp-append (x ∷ []) p = omega arith
extract_versionstamp-append (x ∷ y ∷ ss) p = extract_versionstamp-append (y ∷ ss) p

module _ (D : Database) (d : D.Db) (log : List StoredEvent) where
  open D use {scan}

  -- The versionstamps of a range, in ascending order.
  abbrev pub stamps : KeyRange → List Versionstamp
  stamps r = map (λ (row : Tuple × List ℕ). extract_versionstamp row.0) (scan d r)

  -- The rows of the range are keys of the subspace, one for the position of each picked event.
  pub record Reads (ss : Tuple) (r : KeyRange) (picks : StoredEvent → Bool) : Type 0 where
    pub sound :
        (k : Tuple) (v : List ℕ)
        → In (k, v) (scan d r)
        → (e : StoredEvent) × In e log
          × (picks e ≡ true)
          × (k ≡ ss ++ stamp (to_stamp e.position) ∷ [])
    pub complete :
        (e : StoredEvent)
        → In e log
        → picks e ≡ true
        → (v : List ℕ) × In (ss ++ stamp (to_stamp e.position) ∷ [], v) (scan d r)

  pub some_row-stamps :
      (r : KeyRange) → some_row D d r ≡ true → (p : Versionstamp) × In p (stamps r)
  some_row-stamps r h =
      let (k, v, i) = some_row-In D d r h in
      (
        extract_versionstamp k,
        In-map_of (λ (row : Tuple × List ℕ). extract_versionstamp row.0) (scan d r) i,
      )

  pub stamps-some_row : (r : KeyRange) (p : Versionstamp) → In p (stamps r) → some_row D d r ≡ true
  stamps-some_row r p i = let (row, j, h) = In-map _ (scan d r) i in In-some_row D d r row.0 row.1 j

  module _ (ss : Tuple) (r : KeyRange) (picks : StoredEvent → Bool) (reads : Reads ss r picks) where
    pub stamps_sound :
        (p : Versionstamp)
        → In p (stamps r)
        → (e : StoredEvent) × In e log × (picks e ≡ true) × (e.position ≡ p)
    stamps_sound p i =
        let (row, j, h) = In-map _ (scan d r) i in
        let (e, l, q, shape) = reads.sound row.0 row.1 j in
        (
          e,
          l,
          q,
          sym (h ∙ ap extract_versionstamp shape ∙ extract_versionstamp-append ss e.position),
        )

    pub stamps_complete : (e : StoredEvent) → In e log → picks e ≡ true → In e.position (stamps r)
    stamps_complete e i q =
        let (v, j) = reads.complete e i q in
        subst (λ p. In p (stamps r)) (extract_versionstamp-append ss e.position)
          (In-map_of (λ (row : Tuple × List ℕ). extract_versionstamp row.0) (scan d r) j)

    ShapeOf : Tuple × List ℕ → Type 0
    ShapeOf row = (p : Versionstamp) × (row.0 ≡ ss ++ stamp (to_stamp p) ∷ [])

    position_of : Tuple × List ℕ → Versionstamp
    position_of row = extract_versionstamp row.0

    before_of :
        (a b : Tuple × List ℕ)
        → ShapeOf a
        → ShapeOf b
        → D.starts (suffixed a.0 0) b.0 ≡ true
        → position_of a < position_of b
    unfolding ShapeOf position_of
    before_of a b (p, h) (q, k) starts =
        let less : ltb p q ≡ true =
          sym (stamp_ltb-to_stamp p q)
          ∙ sym (D.after_stamp ss (to_stamp p) (to_stamp q))
          ∙ (rw (h, k) at starts) in
        rw (h, k, extract_versionstamp-append ss p, extract_versionstamp-append ss q)
          (ltb→lt p q less)

    rows-rise :
        (rows : List (Tuple × List ℕ))
        → All ShapeOf rows
        → Pairwise (λ a b. D.starts (suffixed a.0 0) b.0 ≡ true) rows
        → Pairwise ◌<◌ (map position_of rows)
    rows-rise [] h k = tt
    rows-rise (a ∷ rows) h k = (above rows h.1 k.0, rows-rise rows h.1 k.1)
      where
        above :
            (bs : List (Tuple × List ℕ))
            → All ShapeOf bs
            → All (λ b. D.starts (suffixed a.0 0) b.0 ≡ true) bs
            → All (λ q. position_of a < q) (map position_of bs)
        above [] m n = tt
        above (b ∷ bs) m n = (before_of a b h.0 m.0 n.0, above bs m.1 n.1)

    -- A range is read in ascending order of the positions.
    pub stamps-rise : Pairwise ◌<◌ (stamps r)
    unfolding ShapeOf position_of
    stamps-rise =
        rows-rise (scan d r)
          (All-of_In ShapeOf (scan d r)
            (λ row i. let (e, j, q, h) = reads.sound row.0 row.1 i in (e.position, h)))
          (D.scan_ascends d r)
