-- ===== src/Mcp/Tools/Files.antt =====
-- internal/mcp/tools/file_reader.go: reading a file of the workspace. The file system is a
-- parameter; a symbolic link is what the file system makes of it.
pub mod Bounds
use agent_exec_engine.Prelude.{
  ℕ, String, Bool, true, false, List, [], ◌∷◌, Option, none, some, if◌then◌else◌, ◌==◌, ltb, Map,
  lookup, Result, ok, err, ◌>>=◌, ◌>>◌, fail_if,
}
use agent_exec_engine.Prelude.Texts.{trim_space, has_prefix}
use agent_exec_engine.Prelude.Int.{pos}
use agent_exec_engine.Types.{Value, text, ToolDefinition}
use agent_exec_engine.Paths.{FilePath, join_path, rel, starts_up}

abbrev file_reader_definition : ToolDefinition
file_reader_definition = record {
  name = "file_reader";
  description = "Read a file from the workspace.";
  input_schema = record {
    type = "object";
    properties =
        (
          "path",
          record {
            type = "string";
            description = "File path relative to workspace root";
            enum = [];
          },
        )
        ∷ [];
    required = "path" ∷ [];
  };
  category = "file";
  sandboxed = false;
  rate_limit = pos 0;
}

pub data FileError : Type 0 where
  path_required absolute_path escapes_base : FileError
  resolve_failed stat_failed read_failed : String → FileError
  too_large : FileError

-- filepath.Abs, the size that os.Stat reports, and os.ReadFile.
pub record Files : Type 0 where
  pub abs : String → Result String FilePath
  pub size : FilePath → Result String ℕ
  pub read : FilePath → Result String String

abbrev pub max_file_size_bytes : ℕ
max_file_size_bytes = 1048576

abbrev base_path_of : String → String
base_path_of base_path = if trim_space base_path == "" then "." else base_path

module _ {A : Type 0} where
  abbrev pub with_error : (String → FileError) → Result String A → Result FileError A
  with_error wrap (ok a) = ok a
  with_error wrap (err e) = err (wrap e)

abbrev pub text_of : Option Value → Option String
text_of (some (text s)) = some s
text_of _ = none

-- The argument, which has to be a text that is not blank.
unfoldable pub path_of : Map Value → Result FileError String
path_of input = elim (text_of (lookup "path" input)) [
  | none ↦ err path_required
  | some path ↦ if trim_space path == "" then err path_required else ok path
]

module _ (files : Files) where
  unfoldable pub resolve_path : String → String → Result FileError FilePath
  resolve_path base_path path = do
    fail_if (has_prefix path "/") absolute_path
    base ← with_error resolve_failed (files.abs base_path)
    let candidate = join_path base path
    fail_if (starts_up (rel base.parts candidate.parts)) escapes_base
    ok candidate

  unfoldable pub read_bounded : FilePath → Result FileError String
  read_bounded path = do
    size ← with_error stat_failed (files.size path)
    fail_if (ltb max_file_size_bytes size) too_large
    with_error read_failed (files.read path)

  unfoldable pub handle : String → Map Value → Result FileError String
  unfolding path_of resolve_path read_bounded
  handle base_path input = do
    path ← path_of input
    resolved ← resolve_path base_path path
    read_bounded resolved
