-- ===== src/Prelude/Texts.antt =====
-- What the program uses of Go's `strings`. A text is walked by its characters.
use Prim.Native.Nat.{ℕ}
use Prim.Native.Char.{code}
use Prim.Native.String.{String, ◌++◌ as str_append}
use mathlib.Core.Bool.{Bool, true, false, ◌&&◌, ◌||◌}
use mathlib.Core.List.{List, [], ◌∷◌}
use agent_exec_engine.Prelude.Tests.{leb, eqb, if◌then◌else◌}

-- unicode.IsSpace
abbrev is_space : ℕ → Bool
is_space c =
    (leb 9 c && leb c 13)
    || eqb c 32
    || eqb c 0x85
    || eqb c 0xa0
    || eqb c 0x1680
    || (leb 0x2000 c && leb c 0x200a)
    || eqb c 0x2028
    || eqb c 0x2029
    || eqb c 0x202f
    || eqb c 0x205f
    || eqb c 0x3000

unfoldable pub trim_left : String → String
trim_left String.[] = ""
trim_left (String.◌∷◌ c s) =
    let rest = trim_left s in if is_space (code c) then rest else String.◌∷◌ c s

abbrev is_empty_text : String → Bool
is_empty_text String.[] = true
is_empty_text (String.◌∷◌ c s) = false

unfoldable pub trim_right : String → String
trim_right String.[] = ""
trim_right (String.◌∷◌ c s) =
    let rest = trim_right s in
    if is_empty_text rest && is_space (code c) then "" else String.◌∷◌ c rest

-- strings.TrimSpace
unfoldable pub trim_space : String → String
unfolding trim_left trim_right
trim_space s = trim_left (trim_right s)

-- strings.HasPrefix, with the text first.
unfoldable pub has_prefix : String → String → Bool
has_prefix s String.[] = true
has_prefix String.[] (String.◌∷◌ d prefix) = false
has_prefix (String.◌∷◌ c s) (String.◌∷◌ d prefix) =
    if eqb (code c) (code d) then has_prefix s prefix else false

unfoldable pub drop_prefix : String → String → String
drop_prefix s String.[] = s
drop_prefix String.[] (String.◌∷◌ d prefix) = ""
drop_prefix (String.◌∷◌ c s) (String.◌∷◌ d prefix) = drop_prefix s prefix

-- strings.TrimPrefix
unfoldable pub trim_prefix : String → String → String
unfolding has_prefix drop_prefix
trim_prefix s prefix = if has_prefix s prefix then drop_prefix s prefix else s

abbrev push_front : String → List String → List String
push_front c [] = c ∷ []
push_front c (part ∷ parts) = str_append c part ∷ parts

-- strings.Split at one character, which is given by its number.
unfoldable pub split : ℕ → String → List String
split sep String.[] = "" ∷ []
split sep (String.◌∷◌ c s) =
    let rest = split sep s in
    if eqb (code c) sep then "" ∷ rest else push_front (String.◌∷◌ c "") rest

-- strings.Join, with the separator first.
unfoldable pub join : String → List String → String
join sep [] = ""
join sep (part ∷ []) = part
join sep (part ∷ next ∷ parts) = str_append part (str_append sep (join sep (next ∷ parts)))

-- strings.TrimLeft and strings.TrimRight of one character, which is given by its number.
unfoldable pub trim_left_of : ℕ → String → String
trim_left_of sep String.[] = ""
trim_left_of sep (String.◌∷◌ c s) =
    let rest = trim_left_of sep s in if eqb (code c) sep then rest else String.◌∷◌ c s

unfoldable pub trim_right_of : ℕ → String → String
trim_right_of sep String.[] = ""
trim_right_of sep (String.◌∷◌ c s) =
    let rest = trim_right_of sep s in
    if is_empty_text rest && eqb (code c) sep then "" else String.◌∷◌ c rest
