-- ===== src/Mcp/Tools/Files/Bounds.antt =====
-- internal/mcp/tools/file_reader.go: where the files lie that are read.
use agent_exec_engine.Prelude.{
  ℕ, ◌≤◌, String, ◌≡◌, true, false, List, ◌++◌, Map, contains, ok, >>=-eq-ok, arith, Result-cases,
  inl, inr, contains-append, ap, subst,
}
use agent_exec_engine.Prelude.Texts.{split}
use agent_exec_engine.Types.{Value}
use agent_exec_engine.Paths.{FilePath, join_path, rel, starts_up}
use agent_exec_engine.Paths.Laws.{clean-rooted, rel-below}
use agent_exec_engine.Mcp.Tools.Files.{
  Files, max_file_size_bytes, path_of, resolve_path, read_bounded, handle,
}

-- A path below the workspace: the workspace's parts come first, and none of the others goes up.
pub record IsInside (base path : FilePath) : Type 0 where
  pub rest : List String
  pub below : path.parts ≡ base.parts ++ rest
  pub no_ups : contains rest ".." ≡ false

join_path-rooted :
    (base : FilePath) (path : String)
    → base.rooted ≡ true
    → contains (join_path base path).parts ".." ≡ false
unfolding join_path
join_path-rooted base path h = clean-rooted (record base { parts = base.parts ++ split 47 path }) h

resolve_path-IsInside :
    (files : Files) (base_path path : String) (base candidate : FilePath)
    → files.abs base_path ≡ ok base
    → base.rooted ≡ true
    → resolve_path files base_path path ≡ ok candidate
    → IsInside base candidate
unfolding resolve_path
resolve_path-IsInside files base_path path base candidate abs absolute e =
    let target = join_path base path in
    let low : starts_up (rel base.parts target.parts) ≡ false = ground (arith, abs, e) in
    let same : target ≡ candidate = ground (arith, abs, e, low) in
    let below = rel-below base.parts target.parts low in
    let clear = join_path-rooted base path absolute in
    subst (IsInside base) same (record {
      rest = rel base.parts target.parts;
      below = below;
      no_ups = ground (
        arith,
        clear,
        ap (λ (l : List String). contains l "..") below,
        contains-append base.parts (rel base.parts target.parts) "..",
      );
    })

-- A file that was read: where it lies, and how large it is.
pub record IsServed (files : Files) (base : FilePath) (content : String) : Type 0 where
  pub path : FilePath
  pub inside : IsInside base path
  pub size : ℕ
  pub measured : files.size path ≡ ok size
  pub small : size ≤ max_file_size_bytes
  pub content_of : files.read path ≡ ok content

read_bounded-IsServed :
    (files : Files) (base path : FilePath) (content : String)
    → IsInside base path
    → read_bounded files path ≡ ok content
    → IsServed files base content
unfolding read_bounded
read_bounded-IsServed files base path content inside e = elim (Result-cases (files.size path)) [
  | inl (f, failed) ↦ absurd (ground (arith, failed, e))
  | inr (size, measured) ↦ record {
    path = path;
    inside = inside;
    size = size;
    measured = measured;
    small = ground (arith, measured, e);
    content_of = ground (arith, measured, e);
  }
]

-- What the file reader returns is the content of a file of the workspace that is at most one
-- mebibyte large: its path is that of the workspace, followed by parts none of which goes up.
pub handle-IsServed :
    (files : Files) (base_path : String) (base : FilePath)
    → files.abs base_path ≡ ok base
    → base.rooted ≡ true
    → (input : Map Value) (content : String) → handle files base_path input ≡ ok content
    → IsServed files base content
unfolding handle
handle-IsServed files base_path base abs absolute input content e =
    let (path, asked, e1) = >>=-eq-ok (path_of input) _ e in
    let (resolved, found, e2) = >>=-eq-ok (resolve_path files base_path path) _ e1 in
    read_bounded-IsServed files base resolved content
      (resolve_path-IsInside files base_path path base resolved abs absolute found) e2
