-- ===== src/Generator.antt =====
-- cmd/gen_init_imports.go: the imports of a generated file. The file system and the Go parser are
-- arguments: the directories of a path, the Go files of one, and the functions that a file declares.
-- Log lines, and the formatting and writing of the file, are left out.
pub mod Packages
pub mod Imports
use fairway.Base.{
  ℕ, Bool, true, false, not, ◌&&◌, List, [], ◌∷◌, ◌++◌, Option, none, some, any, codes,
  if◌then◌else◌,
}
use fairway.Base.Order.{ℕ_ord, list_ord, same}
use fairway.Base.Sort.{sort}
use fairway.Fdb.{Str}

-- A function declaration: whether it has a receiver, its name, and the number of its parameters
pub record FuncDecl : Type 0 where
  pub has_receiver : Bool
  pub name : Str
  pub params : ℕ

pub record DirEntry : Type 0 where
  pub name : Str
  pub is_dir : Bool

-- A path is the list of its parts. `read_dir` is os.ReadDir, which can fail, and `parse_file` gives
-- the functions of a file, if it can be parsed.
pub record Files : Type 0 where
  pub read_dir : List Str → Option (List DirEntry)
  pub parse_file : List Str → Option (List FuncDecl)

abbrev pub slice_dirs : List Str
slice_dirs = codes "change" ∷ codes "view" ∷ codes "automate" ∷ []

-- strings.HasSuffix
unfoldable pub has_suffix : Str → Str → Bool
has_suffix [] suffix = same [] suffix
has_suffix (c ∷ cs) suffix = if same (c ∷ cs) suffix then true else has_suffix cs suffix

unfoldable pub is_init : FuncDecl → Bool
is_init fn = not fn.has_receiver && same fn.name (codes "init") && same fn.params 0

module _ (files : Files) where
  unfoldable pub file_has_init : List Str → Bool
  unfolding is_init
  file_has_init path = elim (files.parse_file path) [
    | none ↦ false
    | some decls ↦ any is_init decls
  ]

  unfoldable pub is_go_source : DirEntry → Bool
  unfolding has_suffix
  is_go_source file =
      not file.is_dir
      && has_suffix file.name (codes ".go")
      && not (has_suffix file.name (codes "_test.go"))

  unfoldable pub has_init_function : List Str → Bool
  unfolding file_has_init is_go_source
  has_init_function dir = elim (files.read_dir dir) [
    | none ↦ false
    | some entries ↦
        any (λ file. is_go_source file && file_has_init (dir ++ file.name ∷ [])) entries
  ]

  module _ (module_name bounded_context : Str) where
    -- filepath.Join drops empty parts.
    unfoldable pub scan_dir : Str → List Str
    scan_dir slice_dir =
        if same bounded_context [] then slice_dir ∷ [] else bounded_context ∷ slice_dir ∷ []

    -- fmt.Sprintf with `/` between the parts
    unfoldable pub import_path : Str → Str → Str
    import_path slice_dir name =
        if same bounded_context []
        then module_name ++ 47 ∷ (slice_dir ++ 47 ∷ name)
        else module_name ++ 47 ∷ (bounded_context ++ 47 ∷ (slice_dir ++ 47 ∷ name))

    -- The loop over the entries of a slice directory
    unfoldable pub imports_of : Str → List DirEntry → List Str
    unfolding has_init_function scan_dir import_path
    imports_of slice_dir [] = []
    imports_of slice_dir (entry ∷ entries) =
        let rest = imports_of slice_dir entries in
        if entry.is_dir && has_init_function (scan_dir slice_dir ++ entry.name ∷ [])
        then import_path slice_dir entry.name ∷ rest
        else rest

    -- The loop over the slice directories; one that cannot be read is skipped.
    unfoldable pub all_imports : List Str → List Str
    unfolding imports_of scan_dir
    all_imports [] = []
    all_imports (slice_dir ∷ slice_dirs) = elim (files.read_dir (scan_dir slice_dir)) [
      | none ↦ all_imports slice_dirs
      | some entries ↦ imports_of slice_dir entries ++ all_imports slice_dirs
    ]

    -- sort.Strings(imports)
    unfoldable pub generated_imports : List Str
    unfolding all_imports
    generated_imports = sort (all_imports slice_dirs)

-- The lines of the generated file, before gofmt. `quote` stands for `%q`.
unfoldable pub import_lines : (Str → Str) → List Str → Str
import_lines quote [] = []
import_lines quote (imp ∷ imps) = 9 ∷ 95 ∷ 32 ∷ (quote imp ++ 10 ∷ import_lines quote imps)
