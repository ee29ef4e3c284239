-- ===== src/Rest/Names/Below.antt =====
-- Paths that are not below a directory.
use ma_sinafadavi_claude.Prelude.{
  List, [], ◌∷◌, ◌++◌, Str, str_eq, starts_with, ◌≡◌, refl, arith, false, append_assoc, Bool, ◌∙◌,
}
use ma_sinafadavi_claude.Dtn.Eid.{slash}
use ma_sinafadavi_claude.Dtn.Eid.Split.{Lacks}
use ma_sinafadavi_claude.Rest.Names.{join_slash}
use ma_sinafadavi_claude.Rest.Names.Parts.{IsName}

-- the normal path is the directory, or lies below it
abbrev pub is_in : Str → Str → Bool
is_in dir path = starts_with (path ++ slash ∷ []) (dir ++ slash ∷ [])

first_part :
    (d c s t : Str)
    → Lacks slash d
    → Lacks slash c
    → str_eq d c ≡ false
    → starts_with (c ++ slash ∷ s) (d ++ slash ∷ t) ≡ false
unfolding starts_with str_eq
first_part [] [] s t h k n = absurd (ground arith)
first_part [] (y ∷ c) s t h k n = ground (arith, k.0)
first_part (x ∷ d) [] s t h k n = ground (arith, h.0)
first_part (x ∷ d) (y ∷ c) s t h k n = ground (arith, n, first_part d c s t h.1 k.1)

first_slash :
    (c : Str) (cs : List Str) → (s : Str) × (join_slash (c ∷ cs) ++ slash ∷ [] ≡ c ++ slash ∷ s)
unfolding join_slash
first_slash c [] = ([], refl)
first_slash c (e ∷ es) =
    (join_slash (e ∷ es) ++ slash ∷ [], append_assoc c (slash ∷ join_slash (e ∷ es)) (slash ∷ []))

-- paths with different first names
pub is_in_other :
    (d c : Str) (ds cs : List Str)
    → IsName d
    → IsName c
    → str_eq d c ≡ false
    → is_in (slash ∷ join_slash (d ∷ ds)) (slash ∷ join_slash (c ∷ cs)) ≡ false
unfolding starts_with
is_in_other d c ds cs h k n =
    let (s, p) = first_slash c cs in
    let (t, q) = first_slash d ds in
    (λ i. starts_with (slash ∷ p i) (slash ∷ q i)) ∙ first_part d c s t h.one_part k.one_part n
