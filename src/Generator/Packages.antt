-- ===== src/Generator/Packages.antt =====
-- The packages that cmd/gen_init_imports.go looks for: what its tests on names, files and functions mean.
use fairway.Base.{
  ◌≡◌, ◌≢◌, refl, ap, inl, inr, true, false, Bool-cases, ◌&&◌, List, [], ◌∷◌, ◌++◌, some,
  Option-cases, any, In, any_of_In, In-of_any, arith, codes,
}
use fairway.Base.Order.{ℕ_ord, list_ord, same, same_self, same_iff}
use fairway.Fdb.{Str}
use fairway.Generator.{
  FuncDecl, DirEntry, Files, has_suffix, is_init, file_has_init, is_go_source, has_init_function,
  scan_dir, import_path,
}

-- A function `init` without receiver and parameters
pub record IsInit (fn : FuncDecl) : Type 0 where
  pub no_receiver : fn.has_receiver ≡ false
  pub named : fn.name ≡ codes "init"
  pub no_params : fn.params ≡ 0

-- A file `….go` that is not `…_test.go`
pub record IsGoSource (file : DirEntry) : Type 0 where
  pub stem : Str
  pub is_file : file.is_dir ≡ false
  pub named : file.name ≡ stem ++ codes ".go"
  pub no_test : (s : Str) → file.name ≢ s ++ codes "_test.go"

-- A directory with a Go source file that can be parsed and declares such a function
pub record HasInit (files : Files) (dir : List Str) : Type 0 where
  pub entries : List DirEntry
  pub file : DirEntry
  pub decls : List FuncDecl
  pub fn : FuncDecl
  pub listed : files.read_dir dir ≡ some entries
  pub in_dir : In file entries
  pub source : IsGoSource file
  pub parsed : files.parse_file (dir ++ file.name ∷ []) ≡ some decls
  pub declared : In fn decls
  pub init : IsInit fn

-- The bounded context, if there is one
abbrev pub context : Str → List Str
context [] = []
context (c ∷ cs) = (c ∷ cs) ∷ []

-- The parts with `/` between them
abbrev pub slashed : List Str → Str
slashed [] = []
slashed (part ∷ []) = part
slashed (part ∷ next ∷ parts) = part ++ 47 ∷ slashed (next ∷ parts)

has_suffix-append : (stem suffix : Str) → has_suffix (stem ++ suffix) suffix ≡ true
unfolding has_suffix
has_suffix-append [] [] = refl
has_suffix-append [] (c ∷ cs) = rw (same_self (c ∷ cs)) refl
has_suffix-append (x ∷ xs) suffix = elim (Bool-cases (same (x ∷ (xs ++ suffix)) suffix)) [
  | inl t ↦ rw t refl
  | inr f ↦ rw (f, has_suffix-append xs suffix) refl
]

has_suffix-stem :
    (s suffix : Str) → has_suffix s suffix ≡ true → (stem : Str) × (s ≡ stem ++ suffix)
unfolding has_suffix
has_suffix-stem [] suffix h = ([], (same_iff [] suffix).0 h)
has_suffix-stem (c ∷ cs) suffix h = elim (Bool-cases (same (c ∷ cs) suffix)) [
  | inl t ↦ ([], (same_iff (c ∷ cs) suffix).0 t)
  | inr f ↦
      let (stem, is) = has_suffix-stem cs suffix (rw f at h) in
      (c ∷ stem, ap (λ (l : Str). c ∷ l) is)
]

is_init-IsInit : (fn : FuncDecl) → is_init fn ≡ true → IsInit fn
unfolding is_init
is_init-IsInit fn h = record {
  no_receiver = ground (arith, h);
  named = (same_iff fn.name (codes "init")).0 (ground (arith, h));
  no_params = (same_iff fn.params 0).0 (ground (arith, h));
}

is_init-of_IsInit : (fn : FuncDecl) → IsInit fn → is_init fn ≡ true
unfolding is_init
is_init-of_IsInit fn i = rw (is_init, i.no_receiver, i.named, i.no_params) refl

is_go_source-IsGoSource :
    (file : DirEntry) (files : Files) → is_go_source files file ≡ true → IsGoSource file
unfolding is_go_source
is_go_source-IsGoSource file files h =
    let go : has_suffix file.name (codes ".go") ≡ true = ground (arith, h) in
    let no_test : has_suffix file.name (codes "_test.go") ≡ false = ground (arith, h) in
    let (stem, is) = has_suffix-stem file.name (codes ".go") go in
    record {
      stem = stem;
      is_file = ground (arith, h);
      named = is;
      no_test = λ s e.
          let test : has_suffix file.name (codes "_test.go") ≡ true =
            rw e (has_suffix-append s (codes "_test.go")) in
          cc (test, no_test);
    }

is_go_source-of_IsGoSource :
    (file : DirEntry) (files : Files) → IsGoSource file → is_go_source files file ≡ true
unfolding is_go_source
is_go_source-of_IsGoSource file files s =
    let go : has_suffix file.name (codes ".go") ≡ true =
      rw s.named (has_suffix-append s.stem (codes ".go")) in
    elim (Bool-cases (has_suffix file.name (codes "_test.go"))) [
      | inl t ↦
          let (stem, is) = has_suffix-stem file.name (codes "_test.go") t in
          absurd (s.no_test stem is)
      | inr f ↦ rw (is_go_source, s.is_file, go, f) refl
    ]

module _ (files : Files) (dir : List Str) where
  pub has_init_function-HasInit : has_init_function files dir ≡ true → HasInit files dir
  unfolding has_init_function file_has_init
  has_init_function-HasInit h = elim (Option-cases (files.read_dir dir)) [
    | inl unread ↦ cc (rw (has_init_function, unread) at h)
    | inr (entries, listed) ↦
        let (file, in_dir, both) =
          In-of_any
            (λ (file : DirEntry).
              is_go_source files file && file_has_init files (dir ++ file.name ∷ []))
            entries (rw (has_init_function, listed) at h) in
        let has : file_has_init files (dir ++ file.name ∷ []) ≡ true = ground (arith, both) in
        elim (Option-cases (files.parse_file (dir ++ file.name ∷ []))) [
          | inl unparsed ↦ cc (rw (file_has_init, unparsed) at has)
          | inr (decls, parsed) ↦
              let inits : any is_init decls ≡ true = rw (file_has_init, parsed) at has in
              let (fn, declared, init) = In-of_any is_init decls inits in
              record {
                entries = entries;
                file = file;
                decls = decls;
                fn = fn;
                listed = listed;
                in_dir = in_dir;
                source = is_go_source-IsGoSource file files (ground (arith, both));
                parsed = parsed;
                declared = declared;
                init = is_init-IsInit fn init;
              }
        ]
  ]

  pub has_init_function-of_HasInit : HasInit files dir → has_init_function files dir ≡ true
  unfolding has_init_function file_has_init
  has_init_function-of_HasInit i =
      let inits : any is_init i.decls ≡ true =
        any_of_In is_init i.decls i.declared (is_init-of_IsInit i.fn i.init) in
      let file_inits : file_has_init files (dir ++ i.file.name ∷ []) ≡ true =
        rw (file_has_init, i.parsed) inits in
      let source = is_go_source-of_IsGoSource i.file files i.source in
      rw (has_init_function, i.listed)
        (any_of_In
          (λ (file : DirEntry).
            is_go_source files file && file_has_init files (dir ++ file.name ∷ []))
          i.entries i.in_dir (rw (source, file_inits) refl))

module _ (files : Files) (module_name bounded_context : Str) where
  pub scan_dir-context :
      (slice_dir : Str)
      → scan_dir files module_name bounded_context slice_dir
        ≡ context bounded_context ++ slice_dir ∷ []
  unfolding scan_dir
  scan_dir-context slice_dir = at bounded_context
    where
      at : (c : Str) → scan_dir files module_name c slice_dir ≡ context c ++ slice_dir ∷ []
      at [] = refl
      at (c ∷ cs) = refl

  pub import_path-slashed :
      (slice_dir name : Str)
      → import_path files module_name bounded_context slice_dir name
        ≡ slashed (module_name ∷ (context bounded_context ++ slice_dir ∷ name ∷ []))
  unfolding import_path
  import_path-slashed slice_dir name = at bounded_context
    where
      at :
          (c : Str)
          → import_path files module_name c slice_dir name
            ≡ slashed (module_name ∷ (context c ++ slice_dir ∷ name ∷ []))
      at [] = refl
      at (c ∷ cs) = refl
