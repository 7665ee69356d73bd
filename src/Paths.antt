-- ===== src/Paths.antt =====
-- What the program uses of Go's `path` and `path/filepath`, with the separator /. A path is whether
-- it is absolute, and the parts between its separators.
pub mod Laws
use agent_exec_engine.Prelude.{
  String, Bool, true, false, ◌||◌, ◌&&◌, not, List, [], ◌∷◌, ◌++◌, if◌then◌else◌, ◌==◌,
}
use agent_exec_engine.Prelude.Texts.{has_prefix, split, join}
use mathlib.Core.List.{reverse}
use Prim.Native.String.{◌++◌ as str_append}

pub record FilePath : Type 0 where
  pub rooted : Bool
  pub parts : List String

unfoldable pub parse : String → FilePath
parse s = record { rooted = has_prefix s "/"; parts = split 47 s }

-- One part of a path, with the parts that are kept so far, last first.
unfoldable pub clean_part : Bool → String → List String → List String
clean_part rooted part kept =
    if part == "" || part == "."
    then kept
    else if part == ".."
    then elim kept [
      | [] ↦ if rooted then [] else ".." ∷ []
      | last ∷ earlier ↦ if last == ".." then ".." ∷ last ∷ earlier else earlier
    ]
    else part ∷ kept

unfoldable pub clean_parts : Bool → List String → List String → List String
unfolding clean_part
clean_parts rooted [] kept = kept
clean_parts rooted (part ∷ parts) kept = clean_parts rooted parts (clean_part rooted part kept)

-- path.Clean; "." is the path with no parts.
unfoldable pub clean : FilePath → FilePath
unfolding clean_parts
clean p = record p { parts = reverse (clean_parts p.rooted p.parts []) }

-- filepath.Join of an absolute path and a text.
unfoldable pub join_path : FilePath → String → FilePath
unfolding clean
join_path base s = clean (record base { parts = base.parts ++ split 47 s })

unfoldable pub ups : List String → List String
ups [] = []
ups (b ∷ base) = ".." ∷ ups base

-- filepath.Rel of two clean paths that are both absolute.
unfoldable pub rel : List String → List String → List String
unfolding ups
rel [] target = target
rel (b ∷ base) [] = ups (b ∷ base)
rel (b ∷ base) (t ∷ target) =
    let rest = rel base target in if b == t then rest else ups (b ∷ base) ++ t ∷ target

-- The text is ".." or starts with "../".
abbrev pub starts_up : List String → Bool
starts_up [] = false
starts_up (part ∷ parts) = part == ".."

unfoldable pub render : FilePath → String
render p = elim (p.rooted) [
  | true ↦ str_append "/" (join "/" p.parts)
  | false ↦ elim (p.parts) [ [] ↦ "." | _ ↦ join "/" p.parts ]
]
