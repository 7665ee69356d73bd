-- ===== src/Sandbox/Archive.antt =====
-- internal/sandbox/archive.go: the names of files that go into a container and come out of it. The
-- tar format is the engine's: an archive is the list of its entries.
pub mod Inside
use Prim.Native.Nat.{Ordering}
use Prim.Native.String.{compare, ◌++◌ as str_append}
use agent_exec_engine.Prelude.{
  ℕ, String, Bool, true, false, ◌&&◌, ◌||◌, not, List, [], ◌∷◌, ◌++◌, Option, none, some,
  if◌then◌else◌, ◌==◌, Map, lookup, insert, keys, contains, get_or, Result, ok, err, ◌>>=◌, ◌>>◌,
  fail_if,
}
use agent_exec_engine.Prelude.Texts.{trim_space, trim_prefix, has_prefix, join, split}
use agent_exec_engine.Paths.{FilePath, parse, clean, render, starts_up}

pub data ArchiveError : Type 0 where
  invalid_path escapes_workspace : String → ArchiveError
  read_failed : String → ArchiveError

-- strings.TrimPrefix(cleaned, "workspace/") of a path that is not absolute.
unfoldable pub strip_workspace : List String → List String
strip_workspace [] = []
strip_workspace (first ∷ []) = first ∷ []
strip_workspace (first ∷ next ∷ rest) =
    if first == "workspace" then next ∷ rest else first ∷ next ∷ rest

abbrev pub drop_workspace : FilePath → FilePath
drop_workspace p = if p.rooted then p else record p { parts = strip_workspace p.parts }

-- The path is "" or ".".
abbrev is_nothing : FilePath → Bool
is_nothing p = elim (p.parts) [ [] ↦ not p.rooted | _ ↦ false ]

-- The checks of `normalizeWorkspacePath` on the name and the path it stands for.
unfoldable pub check_path : String → FilePath → Result ArchiveError FilePath
check_path name cleaned = do
  fail_if (is_nothing cleaned) (invalid_path name)
  fail_if (not cleaned.rooted && starts_up cleaned.parts) (escapes_workspace name)
  ok cleaned

unfoldable pub normalize_workspace_path : String → Result ArchiveError FilePath
unfolding check_path
normalize_workspace_path name =
    check_path name (drop_workspace (clean (parse (trim_space (trim_prefix name "/")))))

-- What is written into the archive: a directory, or a file with its content.
pub data Entry : Type 0 where
  directory : String → Entry
  file : String → String → Entry

-- All parts but the last: path.Dir, split at its separators.
abbrev parents : List String → List String
parents [] = []
parents (part ∷ []) = []
parents (part ∷ next ∷ rest) = part ∷ parents (next ∷ rest)

abbrev or_blank : List String → List String
or_blank [] = "" ∷ []
or_blank (part ∷ parts) = part ∷ parts

unfoldable dir_segments : FilePath → List String
dir_segments p = if p.rooted then "" ∷ or_blank (parents p.parts) else parents p.parts

-- The loop of `writeParentDirs`: the directories that are new, and all that were written so far.
unfoldable write_parent_dirs : List String → String → List String → List Entry × List String
write_parent_dirs [] current created = ([], created)
write_parent_dirs (segment ∷ segments) current created =
    let path = if current == "" then segment else str_append current (str_append "/" segment) in
    let known = contains created path in
    let (entries, created') =
      write_parent_dirs segments path (if known then created else path ∷ created) in
    (if known then entries else directory path ∷ entries, created')

-- The loop of `buildWorkspaceArchive` over the sorted names.
unfoldable build_entries : Map String → List String → List String → Result ArchiveError (List Entry)
unfolding write_parent_dirs dir_segments
build_entries files created [] = ok []
build_entries files created (name ∷ names) = do
  path ← normalize_workspace_path name
  let (dirs, created') = write_parent_dirs (dir_segments path) "" created
  rest ← build_entries files created' names
  ok (dirs ++ file (render path) (get_or "" (lookup name files)) ∷ rest)

abbrev sorted_before : String → String → Bool
sorted_before a b = elim (compare a b) [ Ordering.gt ↦ false | _ ↦ true ]

unfoldable insert_sorted : String → List String → List String
insert_sorted x [] = x ∷ []
insert_sorted x (y ∷ ys) =
    let rest = insert_sorted x ys in if sorted_before x y then x ∷ y ∷ ys else y ∷ rest

-- slices.Sort
unfoldable pub sort : List String → List String
unfolding insert_sorted
sort [] = []
sort (x ∷ xs) = insert_sorted x (sort xs)

unfoldable pub build_workspace_archive : Map String → Result ArchiveError (List Entry)
unfolding build_entries sort
build_workspace_archive files = build_entries files [] (sort (keys files))

-- A header of the archive that comes out: its name, whether it is a regular file, and what reading
-- it gives.
pub record Header : Type 0 where
  pub name : String
  pub is_regular : Bool
  pub content : Result String String

-- The switch of `normalizeOutputPath`; `none` for a name that is passed over.
unfoldable pub output_parts : List String → Option (List String)
output_parts [] = none
output_parts (first ∷ []) =
    if first == "output" then none else if has_prefix first "." then none else some (first ∷ [])
output_parts (first ∷ next ∷ rest) =
    if first == "output"
    then some (next ∷ rest)
    else if has_prefix first "."
    then none
    else some (first ∷ next ∷ rest)

-- The name below the output directory, as its parts.
unfoldable pub normalize_output_path : String → Option (List String)
normalize_output_path name =
    output_parts (clean (record { rooted = true; parts = split 47 name })).parts

-- The loop of `extractOutputArchive`: an error of the reader ends it.
unfoldable pub extract_output_archive :
    List (Result String Header) → Map String → Result ArchiveError (Map String)
unfolding normalize_output_path
extract_output_archive [] files = ok files
extract_output_archive (err e ∷ rest) files = err (read_failed e)
extract_output_archive (ok header ∷ rest) files =
    let skipped = extract_output_archive rest files in
    let kept = λ (path : List String).
      λ (content : String). extract_output_archive rest (insert (join "/" path) content files) in
    if not header.is_regular then skipped else elim (normalize_output_path header.name) [
      | none ↦ skipped
      | some path ↦ elim (header.content) [
        | err e ↦ err (read_failed e)
        | ok content ↦ kept path content
      ]
    ]
