-- ===== src/Rest/Names/Breakout.antt =====
-- What prevent_breakout lets through.
use ma_sinafadavi_claude.Prelude.{
  ℕ, suc, true, false, List, [], ◌∷◌, ◌++◌, Str, str_eq, str_eq_self, starts_with, ok, ◌≡◌, refl,
  ap, ◌∙◌,
}
use ma_sinafadavi_claude.Dtn.Eid.{slash}
use ma_sinafadavi_claude.Dtn.Eid.Split.{Lacks}
use ma_sinafadavi_claude.Rest.Names.{
  forward, ends_in_slash, join_slash, normpath, path_join, check_path, is_plain, prevent_breakout,
  strip_slash,
}
use ma_sinafadavi_claude.Rest.Names.Parts.{
  IsName, AreNames, up, AreParts-names, AreParts-append, AreParts-up, norm_comps-names, drop_lasts,
  ends_in_slash-append,
}
use ma_sinafadavi_claude.Rest.Names.Climb.{
  climb, doubled, normpath-climb, ends_in_slash-climb, climb_head, path_join-climb,
  norm_comps-climb, forward-climb, no_variable-doubled, no_variable, normpath-doubled,
  normpath-absolute, ends_absolute, forward-doubled,
}
use ma_sinafadavi_claude.Rest.Names.Below.{is_in, is_in_other}

path_join-absolute : (dir s : Str) → path_join dir (slash ∷ s) ≡ slash ∷ s
unfolding path_join starts_with
path_join-absolute dir s = refl

module _ (expanduser expandvars : Str → Str)
    (user_id : (s : Str) → starts_with s (b'~' ∷ []) ≡ false → expanduser s ≡ s)
    (vars_id : (s : Str) → Lacks b'$' s → expandvars s ≡ s) where
  is_plain_lem :
      (s : Str)
      → normpath s ≡ s
      → forward s ≡ s
      → starts_with s (b'~' ∷ []) ≡ false
      → Lacks b'$' s
      → is_plain expanduser expandvars s ≡ true
  unfolding is_plain
  is_plain_lem s n f u v = rw (n, f, user_id s u, vars_id s v, str_eq_self s)

  lets_through :
      (s : Str)
      → forward s ≡ s
      → str_eq s (slash ∷ []) ≡ false
      → ends_in_slash s ≡ false
      → is_plain expanduser expandvars s ≡ true
      → prevent_breakout expanduser expandvars s ≡ ok (strip_slash s)
  unfolding prevent_breakout check_path
  lets_through s f n e p = rw (f, n, e, p)

  prevent_breakout-climb :
      (k : ℕ) (cs : List Str)
      → AreNames cs
      → prevent_breakout expanduser expandvars (climb k cs) ≡ ok (climb k cs)
  prevent_breakout-climb k cs h =
      let (t, e) = climb_head k cs in
      lets_through (climb k cs) (forward-climb k cs h) (rw e (unfold str_eq in refl))
        (ends_in_slash-climb k cs h)
        (is_plain_lem (climb k cs) (normpath-climb k cs h) (forward-climb k cs h)
          (rw e (unfold starts_with in refl)) (no_variable k cs h))
      ∙ ap ok (rw e (unfold strip_slash in refl))

  -- A path that climbs out by `..` at its front, and goes down by ordinary names after that, passes
  -- prevent_breakout as it is, however often it climbs; and under a data directory that is an
  -- absolute path of ordinary names it stands for what lies that much above the directory. The
  -- environment changes no path without `~` at the front and no path without `$`.
  pub breakout_up :
      (d : Str) (ds cs : List Str) (k : ℕ)
      → IsName d
      → AreNames ds
      → AreNames cs
      → (prevent_breakout expanduser expandvars (climb k cs) ≡ ok (climb k cs))
        × (normpath (path_join (slash ∷ join_slash (d ∷ ds)) (climb k cs))
            ≡ slash ∷ join_slash (drop_lasts (suc k) (d ∷ ds) ++ cs))
  breakout_up d ds cs k h i j = (
    prevent_breakout-climb k cs j,
    ap normpath (path_join-climb d ds k cs h i)
        ∙ (normpath-absolute d (ds ++ up (suc k) cs) h (
              AreParts-append ds (up (suc k) cs) (AreParts-names ds i)
                (AreParts-up (suc k) cs (AreParts-names cs j)))
            ∙ ap (λ comps. slash ∷ join_slash comps) (norm_comps-climb d ds cs k h i j)),
  )

  prevent_breakout-doubled :
      (c : Str) (cs : List Str)
      → AreNames (c ∷ cs)
      → prevent_breakout expanduser expandvars (doubled c cs) ≡ ok (slash ∷ join_slash (c ∷ cs))
  prevent_breakout-doubled c cs h =
      lets_through (doubled c cs) (forward-doubled c cs h) (unfold doubled str_eq in refl)
        (unfold doubled in
          ends_in_slash-append (slash ∷ []) (slash ∷ join_slash (c ∷ cs)) refl
          ∙ ends_absolute c cs h.0 h.1)
        (is_plain_lem (doubled c cs) (normpath-doubled c cs h) (forward-doubled c cs h)
          (unfold doubled starts_with in refl) (no_variable-doubled c cs h))
      ∙ ap ok (unfold doubled strip_slash in refl)

  -- A path that begins with two slashes and goes on with ordinary names loses one of the slashes in
  -- prevent_breakout and passes. Let a data directory be an absolute path of ordinary names, the first
  -- of which is another than the first of the path: then the path joined to the directory stands for
  -- the path with one slash, and this is neither the data directory nor below it. The environment
  -- changes no path without `~` at the front and no path without `$`.
  pub breakout_root :
      (d c : Str) (ds cs : List Str)
      → IsName d
      → AreNames ds
      → IsName c
      → AreNames cs
      → str_eq d c ≡ false
      → (path : Str) × (prevent_breakout expanduser expandvars (doubled c cs) ≡ ok path)
        × (normpath (path_join (slash ∷ join_slash (d ∷ ds)) path) ≡ slash ∷ join_slash (c ∷ cs))
        × (is_in
              (slash ∷ join_slash (d ∷ ds))
              (normpath (path_join (slash ∷ join_slash (d ∷ ds)) path))
            ≡ false)
  breakout_root d c ds cs h i k l n =
      let path = slash ∷ join_slash (c ∷ cs) in
      let place : normpath (path_join (slash ∷ join_slash (d ∷ ds)) path) ≡ path =
        ap normpath (path_join-absolute (slash ∷ join_slash (d ∷ ds)) (join_slash (c ∷ cs)))
        ∙ (normpath-absolute c cs k (AreParts-names cs l)
            ∙ ap (λ comps. slash ∷ join_slash comps) (norm_comps-names true [] (c ∷ cs) (k, l))) in
      (
        path,
        prevent_breakout-doubled c cs (k, l),
        place,
        ap (is_in (slash ∷ join_slash (d ∷ ds))) place ∙ is_in_other d c ds cs h k n,
      )
