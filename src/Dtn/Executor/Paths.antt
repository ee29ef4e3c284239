-- ===== src/Dtn/Executor/Paths.antt =====
-- Paths as pathlib has them in rec/dtn/executor.py: the parts of an absolute path.
use ma_sinafadavi_claude.Prelude.{
  Bool, true, false, ◌||◌, Option, none, some, List, [], ◌∷◌, ◌++◌, Str, ◌==◌, if◌then◌else◌,
  str_eq, str_eq_iff, keep, is_empty, ◌≡◌, refl, arith, not,
}
use ma_sinafadavi_claude.Dtn.Eid.{split, slash, dot}

abbrev pub FilePath : Type 0
FilePath = List Str

-- s.lstrip("/")
unfoldable pub lstrip : Str → Str
lstrip [] = []
lstrip (c ∷ cs) = let rest = lstrip cs in if c == slash then rest else c ∷ cs

-- the parts of a relative path: empty parts and `.` are dropped
unfoldable pub parts : Str → FilePath
parts s = keep (λ p. not (is_empty p || str_eq p (dot ∷ []))) (split slash s)

-- base / s.lstrip("/")
unfoldable pub join : FilePath → Str → FilePath
unfolding parts lstrip
join base s = base ++ parts (lstrip s)

-- path.relative_to(base), where `none` is ValueError
unfoldable pub relative_to : FilePath → FilePath → Option FilePath
relative_to path [] = some path
relative_to [] (b ∷ base) = none
relative_to (p ∷ path) (b ∷ base) =
    let rest = relative_to path base in if str_eq p b then rest else none

-- path.is_relative_to(base)
unfoldable pub is_relative_to : FilePath → FilePath → Bool
unfolding relative_to
is_relative_to path base = elim (relative_to path base) [ none ↦ false | some rest ↦ true ]

-- path.parent
unfoldable pub parent : FilePath → FilePath
parent [] = []
parent (p ∷ []) = []
parent (p ∷ q ∷ rest) = p ∷ parent (q ∷ rest)

pub relative_to-append :
    (path base rest : FilePath) → relative_to path base ≡ some rest → path ≡ base ++ rest
unfolding relative_to
relative_to-append path [] rest h = ground arith
relative_to-append [] (b ∷ base) rest h = absurd (ground arith)
relative_to-append (p ∷ path) (b ∷ base) rest h =
    ground (arith, str_eq_iff p b, relative_to-append path base rest)

relative_to_self : (path : FilePath) → relative_to path path ≡ some []
unfolding relative_to
relative_to_self [] = refl
relative_to_self (p ∷ path) = ground (arith, str_eq_iff p p, relative_to_self path)

pub is_relative_to_self : (path : FilePath) → is_relative_to path path ≡ true
unfolding is_relative_to
is_relative_to_self path = ground (arith, relative_to_self path)
