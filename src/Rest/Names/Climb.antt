-- ===== src/Rest/Names/Climb.antt =====
-- The two kinds of path that prevent_breakout does not stop, and their normal forms.
use ma_sinafadavi_claude.Prelude.{
  ℕ, zero, suc, true, false, List, [], ◌∷◌, ◌++◌, Str, starts_with, is_empty, ◌≡◌, refl, arith, ap,
  sym, ◌∙◌, Bool, append-nil,
}
use ma_sinafadavi_claude.Dtn.Eid.{split, slash, dot}
use ma_sinafadavi_claude.Dtn.Eid.Split.{Lacks}
use ma_sinafadavi_claude.Rest.Names.{
  dots, backslash, forward, ends_in_slash, join_slash, initial_slashes, norm_comps, or_dot,
  normpath, path_join,
}
use ma_sinafadavi_claude.Rest.Names.Parts.{
  IsName, AreNames, up, AreParts, AreParts-names, AreParts-up, split-join_slash, join_slash-append,
  norm_comps-names, norm_comps-up, norm_comps-parents, norm_comps-append, drop_lasts, forward-Lacks,
  AreFull-up, ends_in_slash-join_slash, ends_in_slash-append, Lacks-join_slash, AllLack-backslash,
  AllLack-variable, AllLack-up, AreFull, is_empty-join_slash,
}

-- a path that begins with `..`
unfoldable pub climb : ℕ → List Str → Str
climb k cs = join_slash (up (suc k) cs)

pub climb_head : (k : ℕ) (cs : List Str) → (t : Str) × (climb k cs ≡ dot ∷ dot ∷ t)
unfolding climb up join_slash
climb_head zero [] = ([], refl)
climb_head zero (c ∷ cs) = (slash ∷ join_slash (c ∷ cs), refl)
climb_head (suc k) cs = (slash ∷ join_slash (up (suc k) cs), refl)

pub initial_slashes-dots : (t : Str) → initial_slashes (dot ∷ dot ∷ t) ≡ []
unfolding initial_slashes starts_with
initial_slashes-dots t = refl

pub or_dot-dots : (t : Str) → or_dot (dot ∷ t) ≡ dot ∷ t
unfolding or_dot
or_dot-dots t = refl

pub normpath-climb : (k : ℕ) (cs : List Str) → AreNames cs → normpath (climb k cs) ≡ climb k cs
unfolding normpath up climb
normpath-climb k cs h =
    let (t, e) = climb_head k cs in
    rw (e, initial_slashes-dots t)
      (rw (← e) (rw (split_climb, norm_comps-up 0 (suc k) cs h) (rw e (or_dot-dots (dot ∷ t)))))
  where
    split_climb : split slash (climb k cs) ≡ up (suc k) cs
    split_climb = split-join_slash dots (up k cs) (AreParts-up (suc k) cs (AreParts-names cs h))

pub forward-climb : (k : ℕ) (cs : List Str) → AreNames cs → forward (climb k cs) ≡ climb k cs
unfolding climb
forward-climb k cs h = forward-Lacks (climb k cs) (
    Lacks-join_slash backslash (up (suc k) cs) (omega arith)
      (AllLack-up backslash (suc k) cs (omega arith) (AllLack-backslash cs h)))

pub ends_in_slash-climb : (k : ℕ) (cs : List Str) → AreNames cs → ends_in_slash (climb k cs) ≡ false
unfolding climb up
ends_in_slash-climb k cs h =
    ends_in_slash-join_slash dots (up k cs) (AreParts-up (suc k) cs (AreParts-names cs h))
      (AreFull-up (suc k) cs h)

pub one_slash_name :
    (d t : Str)
    → is_empty d ≡ false
    → Lacks slash d
    → initial_slashes (slash ∷ (d ++ t)) ≡ slash ∷ []
unfolding initial_slashes starts_with
one_slash_name [] t h k = absurd (cc)
one_slash_name (c ∷ d) t h k = ground (arith, k.0)

pub one_slash :
    (d : Str) (ds : List Str)
    → IsName d
    → initial_slashes (slash ∷ join_slash (d ∷ ds)) ≡ slash ∷ []
unfolding join_slash
one_slash d [] h =
    ap (λ s. initial_slashes (slash ∷ s)) (sym (append-nil d))
    ∙ one_slash_name d [] h.full h.one_part
one_slash d (e ∷ ds) h = one_slash_name d (slash ∷ join_slash (e ∷ ds)) h.full h.one_part

pub slash_first : (d : Str) (ds : List Str) → slash ∷ join_slash (d ∷ ds) ≡ join_slash ([] ∷ d ∷ ds)
unfolding join_slash
slash_first d ds = refl

pub split_absolute :
    (d : Str) (ds : List Str)
    → AreParts (d ∷ ds)
    → split slash (slash ∷ join_slash (d ∷ ds)) ≡ [] ∷ d ∷ ds
split_absolute d ds k = ap (split slash) (slash_first d ds) ∙ split-join_slash [] (d ∷ ds) (tt, k)

pub norm_comps-empty :
    (absolute : Bool) (cs : List Str) → norm_comps absolute [] ([] ∷ cs) ≡ norm_comps absolute [] cs
unfolding norm_comps
norm_comps-empty absolute cs = refl

pub or_dot-slash : (t : Str) → or_dot (slash ∷ t) ≡ slash ∷ t
unfolding or_dot
or_dot-slash t = refl

-- the normal form of an absolute path
pub normpath-absolute :
    (d : Str) (ds : List Str)
    → IsName d
    → AreParts ds
    → normpath (slash ∷ join_slash (d ∷ ds)) ≡ slash ∷ join_slash (norm_comps true [] (d ∷ ds))
unfolding normpath
normpath-absolute d ds h k =
    rw (one_slash d ds h, split_absolute d ds (h.one_part, k), norm_comps-empty true (d ∷ ds))
      (or_dot-slash (join_slash (norm_comps true [] (d ∷ ds))))

pub no_variable : (k : ℕ) (cs : List Str) → AreNames cs → Lacks b'$' (climb k cs)
unfolding climb
no_variable k cs h =
    Lacks-join_slash b'$' (up (suc k) cs) (omega arith)
      (AllLack-up b'$' (suc k) cs (omega arith) (AllLack-variable cs h))

pub joined :
    (a b : Str)
    → starts_with b (slash ∷ []) ≡ false
    → is_empty a ≡ false
    → ends_in_slash a ≡ false
    → path_join a b ≡ a ++ slash ∷ b
unfolding path_join
joined a b h k l = rw (h, k, l)

-- an absolute path with one slash too many
unfoldable pub doubled : Str → List Str → Str
doubled c cs = slash ∷ slash ∷ join_slash (c ∷ cs)

pub two_slashes_name :
    (c t : Str)
    → is_empty c ≡ false
    → Lacks slash c
    → initial_slashes (slash ∷ slash ∷ (c ++ t)) ≡ slash ∷ slash ∷ []
unfolding initial_slashes starts_with
two_slashes_name [] t h k = absurd (cc)
two_slashes_name (x ∷ c) t h k = ground (arith, k.0)

pub two_slashes :
    (c : Str) (cs : List Str) → IsName c → initial_slashes (doubled c cs) ≡ slash ∷ slash ∷ []
unfolding join_slash doubled
two_slashes c [] h =
    ap (λ s. initial_slashes (slash ∷ slash ∷ s)) (sym (append-nil c))
    ∙ two_slashes_name c [] h.full h.one_part
two_slashes c (d ∷ cs) h = two_slashes_name c (slash ∷ join_slash (d ∷ cs)) h.full h.one_part

pub split-doubled :
    (c : Str) (cs : List Str) → AreParts (c ∷ cs) → split slash (doubled c cs) ≡ [] ∷ [] ∷ c ∷ cs
unfolding doubled
split-doubled c cs k =
    ap (λ s. split slash (slash ∷ s)) (slash_first c cs)
    ∙ (ap (split slash) (slash_first [] (c ∷ cs)) ∙ split-join_slash [] ([] ∷ c ∷ cs) (tt, (tt, k)))

pub normpath-doubled :
    (c : Str) (cs : List Str) → AreNames (c ∷ cs) → normpath (doubled c cs) ≡ doubled c cs
unfolding normpath
normpath-doubled c cs h =
    rw
      (
        two_slashes c cs h.0,
        split-doubled c cs (AreParts-names (c ∷ cs) h),
        norm_comps-empty true ([] ∷ c ∷ cs),
        norm_comps-empty true (c ∷ cs),
        norm_comps-names true [] (c ∷ cs) h,
      )
      (or_dot-slash (slash ∷ join_slash (c ∷ cs)) ∙ unfold doubled in refl)

pub forward-doubled :
    (c : Str) (cs : List Str) → AreNames (c ∷ cs) → forward (doubled c cs) ≡ doubled c cs
unfolding doubled
forward-doubled c cs h = forward-Lacks (slash ∷ slash ∷ join_slash (c ∷ cs)) (
  omega arith,
  (omega arith, Lacks-join_slash backslash (c ∷ cs) (omega arith) (AllLack-backslash (c ∷ cs) h)),
)

pub no_variable-doubled : (c : Str) (cs : List Str) → AreNames (c ∷ cs) → Lacks b'$' (doubled c cs)
unfolding doubled
no_variable-doubled c cs h = (
  omega arith,
  (omega arith, Lacks-join_slash b'$' (c ∷ cs) (omega arith) (AllLack-variable (c ∷ cs) h)),
)

pub AreFull-names : (cs : List Str) → AreNames cs → AreFull cs
AreFull-names [] h = tt
AreFull-names (c ∷ cs) h = (h.0.full, AreFull-names cs h.1)

pub ends_absolute :
    (d : Str) (ds : List Str)
    → IsName d
    → AreNames ds
    → ends_in_slash (slash ∷ join_slash (d ∷ ds)) ≡ false
ends_absolute d ds h i =
    ends_in_slash-append (slash ∷ []) (join_slash (d ∷ ds)) (is_empty-join_slash d ds h.full)
    ∙ ends_in_slash-join_slash d ds (AreParts-names (d ∷ ds) (h, i)) (AreFull-names (d ∷ ds) (h, i))

pub path_join-climb :
    (d : Str) (ds : List Str) (k : ℕ) (cs : List Str)
    → IsName d
    → AreNames ds
    → path_join (slash ∷ join_slash (d ∷ ds)) (climb k cs)
      ≡ slash ∷ join_slash (d ∷ (ds ++ up (suc k) cs))
path_join-climb d ds k cs h i =
    let (t, e) = climb_head k cs in
    joined (slash ∷ join_slash (d ∷ ds)) (climb k cs) (rw e (unfold starts_with in refl)) refl
      (ends_absolute d ds h i)
    ∙ ap (λ s. slash ∷ s) (sym (unfold climb up in join_slash-append d dots ds (up k cs)))

pub norm_comps-climb :
    (d : Str) (ds cs : List Str) (k : ℕ)
    → IsName d
    → AreNames ds
    → AreNames cs
    → norm_comps true [] (d ∷ (ds ++ up (suc k) cs)) ≡ drop_lasts (suc k) (d ∷ ds) ++ cs
norm_comps-climb d ds cs k h i j =
    norm_comps-append true [] (d ∷ ds) (up (suc k) cs)
    ∙ (ap (λ comps. norm_comps true comps (up (suc k) cs))
          (norm_comps-names true [] (d ∷ ds) (h, i))
        ∙ norm_comps-parents (suc k) (d ∷ ds) cs (h, i) j)
