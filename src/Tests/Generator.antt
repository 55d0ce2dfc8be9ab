-- ===== src/Tests/Generator.antt =====
-- Packages of the todo list, one with an init function and one with a test only.
use fairway.Base.{true, false, [], ◌∷◌, none, some, In, codes, if◌then◌else◌, ◌≡◌, refl}
use fairway.Base.Order.{ℕ_ord, list_ord, same}
use fairway.Base.Sort.{IsSorted}
use fairway.Fdb.{Str}
use fairway.Generator.{
  DirEntry, Files, slice_dirs, generated_imports, all_imports, imports_of, has_init_function,
  file_has_init, is_init, is_go_source, has_suffix, scan_dir, import_path,
}
use fairway.Generator.Imports.{Package, generated_imports-exact}

abbrev dir : Str → DirEntry
dir name = record { name = name; is_dir = true }

abbrev file : Str → DirEntry
file name = record { name = name; is_dir = false }

abbrev todo_files : Files
todo_files = record {
  read_dir = λ path.
      if same path (codes "change" ∷ [])
      then some (dir (codes "createlist") ∷ dir (codes "draft") ∷ file (codes "registry.go") ∷ [])
      else if same path (codes "change" ∷ codes "createlist" ∷ [])
      then some (file (codes "create_list.go") ∷ [])
      else if same path (codes "change" ∷ codes "draft" ∷ [])
      then some (file (codes "draft_test.go") ∷ [])
      else none;
  parse_file =
      λ path. some ((record { has_receiver = false; name = codes "init"; params = 0 }) ∷ []);
}

todo_imports :
    all_imports todo_files (codes "todo") [] slice_dirs ≡ codes "todo/change/createlist" ∷ []
unfolding all_imports imports_of has_init_function file_has_init is_init is_go_source has_suffix
    scan_dir import_path
todo_imports = refl

generated_imports-exact_example :
    IsSorted (generated_imports todo_files (codes "todo") [])
    × ((path : Str)
        → (In path (generated_imports todo_files (codes "todo") [])
            → Package todo_files (codes "todo") [] path)
          × (Package todo_files (codes "todo") [] path
              → In path (generated_imports todo_files (codes "todo") [])))
generated_imports-exact_example = generated_imports-exact todo_files (codes "todo") []
