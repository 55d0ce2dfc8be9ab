-- ===== src/Generator/Imports.antt =====
-- Which packages the file of cmd/gen_init_imports.go imports.
use fairway.Base.{
  ◌≡◌, refl, sym, ◌∙◌, subst, inl, inr, Bool, true, Bool-cases, ◌&&◌, List, [], ◌∷◌, ◌++◌, Option,
  none, some, In, here, there, In-append, In-append_left, In-append_right, arith, codes,
}
use fairway.Base.Order.{ℕ_ord, list_ord}
use fairway.Base.Sort.{In-sort, In-sort_of, IsSorted, sort-IsSorted}
use fairway.Fdb.{Str}
use fairway.Generator.Packages.{
  HasInit, context, slashed, has_init_function-HasInit, has_init_function-of_HasInit,
  scan_dir-context, import_path-slashed,
}
use fairway.Generator.{
  DirEntry, Files, has_init_function, scan_dir, import_path, imports_of, all_imports, slice_dirs,
  generated_imports,
}

module _ (files : Files) (module_name bounded_context : Str) where
  -- What the loops find, in terms of their tests
  record Found (slices : List Str) (path : Str) : Type 0 where
    slice_dir : Str
    entries : List DirEntry
    entry : DirEntry
    of_slice : In slice_dir slices
    listed : files.read_dir (scan_dir files module_name bounded_context slice_dir) ≡ some entries
    in_slice : In entry entries
    is_dir : entry.is_dir ≡ true
    has_init :
        has_init_function files
          (scan_dir files module_name bounded_context slice_dir ++ entry.name ∷ [])
        ≡ true
    named : path ≡ import_path files module_name bounded_context slice_dir entry.name

  -- A directory of a slice that holds a package with an init function, and its import path.
  pub record Package (path : Str) : Type 0 where
    pub slice_dir : Str
    pub entries : List DirEntry
    pub entry : DirEntry
    pub of_slice : In slice_dir (codes "change" ∷ codes "view" ∷ codes "automate" ∷ [])
    pub listed : files.read_dir (context bounded_context ++ slice_dir ∷ []) ≡ some entries
    pub in_slice : In entry entries
    pub is_dir : entry.is_dir ≡ true
    pub has_init : HasInit files ((context bounded_context ++ slice_dir ∷ []) ++ entry.name ∷ [])
    pub named :
        path ≡ slashed (module_name ∷ (context bounded_context ++ slice_dir ∷ entry.name ∷ []))

  Package-of_Found : (path : Str) → Found slice_dirs path → Package path
  Package-of_Found path f =
      let where_is = scan_dir-context files module_name bounded_context f.slice_dir in
      record {
        slice_dir = f.slice_dir;
        entries = f.entries;
        entry = f.entry;
        of_slice = f.of_slice;
        listed = rw where_is at f.listed;
        in_slice = f.in_slice;
        is_dir = f.is_dir;
        has_init =
            has_init_function-HasInit files
              ((context bounded_context ++ f.slice_dir ∷ []) ++ f.entry.name ∷ [])
              (rw where_is at f.has_init);
        named =
            f.named
            ∙ import_path-slashed files module_name bounded_context f.slice_dir f.entry.name;
      }

  abbrev path_of : Str → Str → Str
  path_of slice name = import_path files module_name bounded_context slice name

  abbrev wants : Str → DirEntry → Bool
  wants slice e =
      e.is_dir
      && has_init_function files (scan_dir files module_name bounded_context slice ++ e.name ∷ [])

  imports_of-In :
      (slice path : Str) (entries : List DirEntry)
      → In path (imports_of files module_name bounded_context slice entries)
      → (e : DirEntry) × In e entries × (wants slice e ≡ true) × (path ≡ path_of slice e.name)
  unfolding imports_of
  imports_of-In slice path [] i = elim i [ ]
  imports_of-In slice path (e ∷ es) i = elim (Bool-cases (wants slice e)) [
    | inl w ↦ elim (rw (imports_of, w) at i) [
      | here is ↦ (e, here refl, w, is)
      | there j ↦ let (x, k, q, is) = imports_of-In slice path es j in (x, there k, q, is)
    ]
    | inr w ↦
        let (x, k, q, is) = imports_of-In slice path es (rw (imports_of, w) at i) in
        (x, there k, q, is)
  ]

  imports_of-In_of :
      (slice : Str) (e : DirEntry) (entries : List DirEntry)
      → In e entries
      → wants slice e ≡ true
      → In (path_of slice e.name) (imports_of files module_name bounded_context slice entries)
  unfolding imports_of
  imports_of-In_of slice e [] i w = elim i [ ]
  imports_of-In_of slice e (x ∷ xs) (here is) w =
      let w' : wants slice x ≡ true = rw (← is) w in rw (imports_of, w', is) (here refl)
  imports_of-In_of slice e (x ∷ xs) (there j) w =
      let rest = imports_of-In_of slice e xs j w in
      elim (Bool-cases (wants slice x)) [
        | inl t ↦ rw (imports_of, t) (there rest)
        | inr f ↦ rw (imports_of, f) rest
      ]

  all_imports-In :
      (slices : List Str) (path : Str)
      → In path (all_imports files module_name bounded_context slices)
      → Found slices path
  unfolding all_imports
  all_imports-In [] path i = elim i [ ]
  all_imports-In (slice ∷ slices) path i =
      at (λ j. all_imports-In slices path j)
        (files.read_dir (scan_dir files module_name bounded_context slice)) refl
    where
      later : Found slices path → Found (slice ∷ slices) path
      later p = record {
        slice_dir = p.slice_dir;
        entries = p.entries;
        entry = p.entry;
        of_slice = there p.of_slice;
        listed = p.listed;
        in_slice = p.in_slice;
        is_dir = p.is_dir;
        has_init = p.has_init;
        named = p.named;
      }

      at :
          (In path (all_imports files module_name bounded_context slices) → Found slices path)
          → (r : Option (List DirEntry))
          → files.read_dir (scan_dir files module_name bounded_context slice) ≡ r
          → Found (slice ∷ slices) path
      at rest none is = later (rest (rw (all_imports, is) at i))
      at rest (some entries) is =
          elim (In-append (imports_of files module_name bounded_context slice entries) _
            (rw (all_imports, is) at i)) [
              | inr j ↦ later (rest j)
              | inl j ↦
                  let (e, k, w, named) = imports_of-In slice path entries j in
                  record {
                    slice_dir = slice;
                    entries = entries;
                    entry = e;
                    of_slice = here refl;
                    listed = is;
                    in_slice = k;
                    is_dir = ground (arith, w);
                    has_init = ground (arith, w);
                    named = named;
                  }
            ]

  all_imports-In_of :
      (slices : List Str) (path slice : Str) (entries : List DirEntry) (e : DirEntry)
      → In slice slices
      → files.read_dir (scan_dir files module_name bounded_context slice) ≡ some entries
      → In e entries
      → wants slice e ≡ true
      → path ≡ path_of slice e.name
      → In path (all_imports files module_name bounded_context slices)
  unfolding all_imports
  all_imports-In_of [] path slice entries e i listed j w named = elim i [ ]
  all_imports-In_of (x ∷ xs) path slice entries e (here is) listed j w named =
      subst (λ (y : Str). In path (all_imports files module_name bounded_context (y ∷ xs))) is
        (rw (named, all_imports, listed)
          (In-append_left (imports_of files module_name bounded_context slice entries)
            (all_imports files module_name bounded_context xs)
            (imports_of-In_of slice e entries j w)))
  all_imports-In_of (x ∷ xs) path slice entries e (there i) listed j w named =
      at (all_imports-In_of xs path slice entries e i listed j w named)
        (files.read_dir (scan_dir files module_name bounded_context x)) refl
    where
      at :
          In path (all_imports files module_name bounded_context xs)
          → (r : Option (List DirEntry))
          → files.read_dir (scan_dir files module_name bounded_context x) ≡ r
          → In path (all_imports files module_name bounded_context (x ∷ xs))
      at rest none is = rw (all_imports, is) rest
      at rest (some es) is =
          rw (all_imports, is)
            (In-append_right (imports_of files module_name bounded_context x es) _ rest)

  -- On a file system that does not change, the generated imports ascend, and a path is one of them exactly
  -- if it is the import path of a directory in `change`, `view` or `automate`, under the bounded context if
  -- there is one, that has a Go source file, not a test, that can be parsed and declares a function `init`
  -- without receiver and parameters.
  pub generated_imports-exact :
      IsSorted (generated_imports files module_name bounded_context)
      × ((path : Str)
          → (In path (generated_imports files module_name bounded_context) → Package path)
            × (Package path → In path (generated_imports files module_name bounded_context)))
  unfolding generated_imports
  generated_imports-exact = (
    sort-IsSorted (all_imports files module_name bounded_context slice_dirs),
    λ path. (
      λ i. Package-of_Found path (all_imports-In slice_dirs path (In-sort _ i)),
      λ p.
          let where_is = scan_dir-context files module_name bounded_context p.slice_dir in
          let init =
            has_init_function-of_HasInit files
              ((context bounded_context ++ p.slice_dir ∷ []) ++ p.entry.name ∷ []) p.has_init in
          In-sort_of _ (
            all_imports-In_of slice_dirs path p.slice_dir p.entries p.entry p.of_slice
              (rw where_is p.listed) p.in_slice (rw (p.is_dir, where_is, init) refl)
              (p.named
                ∙ sym (
                    import_path-slashed files module_name bounded_context p.slice_dir
                      p.entry.name))),
    ),
  )
