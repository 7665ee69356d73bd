-- ===== src/Sandbox/Archive/Inside.antt =====
-- internal/sandbox/archive.go: the parts of names that go up.
use agent_exec_engine.Prelude.{
  String, ◌≡◌, refl, true, false, not, ◌&&◌, List, [], ◌∷◌, some, contains, ok, arith, ◌==◌, eq_iff,
  Bool-cases, inl, inr,
}
use agent_exec_engine.Prelude.Texts.{trim_space, trim_prefix, split}
use agent_exec_engine.Paths.{FilePath, parse, clean, starts_up}
use agent_exec_engine.Paths.Laws.{clean-rooted, clean-starts_up}
use agent_exec_engine.Sandbox.Archive.{
  strip_workspace, output_parts, check_path, drop_workspace, normalize_workspace_path,
  normalize_output_path,
}

strip_workspace-inside :
    (parts : List String)
    → contains parts ".." ≡ starts_up parts
    → contains (strip_workspace parts) ".." ≡ starts_up (strip_workspace parts)
unfolding strip_workspace contains
strip_workspace-inside [] same = refl
strip_workspace-inside (first ∷ []) same = same
strip_workspace-inside (first ∷ next ∷ rest) same = elim (Bool-cases (first == "workspace")) [
  | inl here ↦
      let apart : (first == "..") ≡ false = rw ((eq_iff first "workspace").0 here) refl in
      ground (arith, here, apart, same)
  | inr elsewhere ↦ ground (arith, elsewhere, same)
]

output_parts-inside :
    (parts path : List String)
    → contains parts ".." ≡ false
    → output_parts parts ≡ some path
    → contains path ".." ≡ false
unfolding output_parts contains
output_parts-inside [] path inside e = absurd (ground (arith, e))
output_parts-inside (first ∷ []) path inside e = ground (arith, inside, e)
output_parts-inside (first ∷ next ∷ rest) path inside e = ground (arith, inside, e)

check_path-inside :
    (name : String) (cleaned path : FilePath)
    → contains cleaned.parts ".." ≡ (not cleaned.rooted && starts_up cleaned.parts)
    → check_path name cleaned ≡ ok path
    → contains path.parts ".." ≡ false
unfolding check_path
check_path-inside name cleaned path same e =
    elim (Bool-cases (not cleaned.rooted && starts_up cleaned.parts)) [
      | inl up ↦ absurd (ground (arith, up, e))
      | inr low ↦ ground (arith, low, same, e)
    ]

drop_workspace-inside :
    (p : FilePath)
    → contains p.parts ".." ≡ (not p.rooted && starts_up p.parts)
    → contains (drop_workspace p).parts ".."
      ≡ (not (drop_workspace p).rooted && starts_up (drop_workspace p).parts)
drop_workspace-inside p same = elim (Bool-cases p.rooted) [
  | inl rooted ↦ ground (arith, rooted, same)
  | inr relative ↦ ground (arith, relative, same, strip_workspace-inside p.parts)
]

clean-inside :
    (p : FilePath) → contains (clean p).parts ".." ≡ (not p.rooted && starts_up (clean p).parts)
clean-inside p = ground (arith, clean-rooted p, clean-starts_up p)

-- A name under which a file is written into a container has no part that goes up, however the
-- request spells it.
pub normalize_workspace_path-inside :
    (name : String) (path : FilePath)
    → normalize_workspace_path name ≡ ok path
    → contains path.parts ".." ≡ false
unfolding normalize_workspace_path clean
normalize_workspace_path-inside name path e =
    let spelled = clean (parse (trim_space (trim_prefix name "/"))) in
    check_path-inside name (drop_workspace spelled) path
      (drop_workspace-inside spelled (clean-inside (parse (trim_space (trim_prefix name "/"))))) e

-- A name under which an output file comes back has no part that goes up, whatever the archive calls
-- it.
normalize_output_path-inside :
    (name : String) (path : List String)
    → normalize_output_path name ≡ some path
    → contains path ".." ≡ false
unfolding normalize_output_path
normalize_output_path-inside name path e =
    let spelled : FilePath = record { rooted = true; parts = split 47 name } in
    output_parts-inside (clean spelled).parts path (clean-rooted spelled refl) e
