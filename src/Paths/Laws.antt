-- ===== src/Paths/Laws.antt =====
-- Where the parts that go up can stand in a clean path.
use agent_exec_engine.Prelude.{
  String, Bool, true, false, ◌≡◌, refl, List, [], ◌∷◌, ◌++◌, contains, ◌==◌, eq_iff, arith,
  append_assoc, ap, sym, ◌∙◌,
}
use mathlib.Core.List.{reverse, reverse-append}
use agent_exec_engine.Prelude.{contains-append}
use agent_exec_engine.Paths.{FilePath, clean_part, clean_parts, clean, ups, rel, starts_up}

clean_part-rooted :
    (part : String) (kept : List String)
    → contains kept ".." ≡ false
    → contains (clean_part true part kept) ".." ≡ false
unfolding clean_part contains
clean_part-rooted part [] h = ground arith
clean_part-rooted part (last ∷ earlier) h = ground (arith, h)

clean_parts-rooted :
    (parts kept : List String)
    → contains kept ".." ≡ false
    → contains (clean_parts true parts kept) ".." ≡ false
unfolding clean_parts contains
clean_parts-rooted [] kept h = h
clean_parts-rooted (part ∷ parts) kept h =
    clean_parts-rooted parts (clean_part true part kept) (clean_part-rooted part kept h)

contains-reverse : (k : String) (xs : List String) → contains (reverse xs) k ≡ contains xs k
unfolding contains
contains-reverse k [] = refl
contains-reverse k (x ∷ xs) =
    rw (reverse-append (x ∷ []) xs)
      (ground (arith, contains-append (reverse xs) (x ∷ []) k, contains-reverse k xs))

pub clean-rooted : (p : FilePath) → p.rooted ≡ true → contains (clean p).parts ".." ≡ false
unfolding clean contains
clean-rooted p h = rw h (
    ground (
      arith,
      contains-reverse ".." (clean_parts true p.parts []),
      clean_parts-rooted p.parts [] refl,
    ))

-- Where the relative path does not go up, the target lies below the base.
pub rel-below :
    (base target : List String)
    → starts_up (rel base target) ≡ false
    → target ≡ base ++ rel base target
unfolding rel ups
rel-below [] target h = refl
rel-below (b ∷ base) [] h = absurd (ground (arith, h))
rel-below (b ∷ base) (t ∷ target) h = ground (arith, eq_iff b t, rel-below base target, h)

abbrev ends_up : List String → Bool
ends_up [] = false
ends_up (x ∷ []) = x == ".."
ends_up (x ∷ y ∷ rest) = ends_up (y ∷ rest)

clean_part-ends_up :
    (part : String) (kept : List String)
    → contains kept ".." ≡ ends_up kept
    → contains (clean_part false part kept) ".." ≡ ends_up (clean_part false part kept)
unfolding clean_part contains
clean_part-ends_up part [] h = ground arith
clean_part-ends_up part (x ∷ []) h = ground (arith, h)
clean_part-ends_up part (x ∷ y ∷ rest) h = ground (arith, h)

clean_parts-ends_up :
    (parts kept : List String)
    → contains kept ".." ≡ ends_up kept
    → contains (clean_parts false parts kept) ".." ≡ ends_up (clean_parts false parts kept)
unfolding clean_parts
clean_parts-ends_up [] kept h = h
clean_parts-ends_up (part ∷ parts) kept h =
    clean_parts-ends_up parts (clean_part false part kept) (clean_part-ends_up part kept h)

starts_up-append :
    (xs : List String) (y z : String) → starts_up (xs ++ y ∷ z ∷ []) ≡ starts_up (xs ++ y ∷ [])
starts_up-append [] y z = refl
starts_up-append (x ∷ xs) y z = refl

starts_up-reverse : (xs : List String) → starts_up (reverse xs) ≡ ends_up xs
starts_up-reverse [] = refl
starts_up-reverse (x ∷ []) = refl
starts_up-reverse (x ∷ y ∷ rest) =
    let ih = starts_up-reverse (y ∷ rest) in
    rw (reverse-append (x ∷ []) (y ∷ rest), reverse-append (y ∷ []) rest)
      (rw (append_assoc (reverse rest) (y ∷ []) (x ∷ [])) (
        starts_up-append (reverse rest) y x
        ∙ ap starts_up (sym (reverse-append (y ∷ []) rest))
        ∙ ih))

-- A clean path that does not start with .. has none at all.
pub clean-starts_up :
    (p : FilePath) → p.rooted ≡ false → contains (clean p).parts ".." ≡ starts_up (clean p).parts
unfolding clean contains
clean-starts_up p relative = rw relative (
    contains-reverse ".." (clean_parts false p.parts [])
    ∙ clean_parts-ends_up p.parts [] refl
    ∙ sym (starts_up-reverse (clean_parts false p.parts [])))
