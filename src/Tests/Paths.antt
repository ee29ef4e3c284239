-- ===== src/Tests/Paths.antt =====
-- Runs of prevent_breakout of rec/util/fs.py.
use ma_sinafadavi_claude.Rest.Names.Below.{is_in}
use ma_sinafadavi_claude.Dtn.Eid.{slash}
use ma_sinafadavi_claude.Rest.Names.{join_slash, path_join, prevent_breakout, normpath}
use ma_sinafadavi_claude.Rest.Names.Parts.{drop_lasts, IsName}
use ma_sinafadavi_claude.Rest.Names.Climb.{climb, doubled}
use ma_sinafadavi_claude.Rest.Names.Breakout.{breakout_up, breakout_root}
use ma_sinafadavi_claude.Prelude.{◌≡◌, ◌++◌, ◌∷◌, ◌≢◌, ℕ, refl, [], arith, str_eq, ok, false, Str}

-- a name of one letter
letter : (c : ℕ) → c ≢ 46 → c ≢ 47 → c ≢ 92 → c ≢ 36 → IsName (c ∷ [])
letter c dot_free slash_free backslash_free dollar_free = record {
  full = refl;
  not_dot = unfold str_eq in ground arith;
  not_dots = unfold str_eq in ground arith;
  one_part = (ground arith, tt);
  no_backslash = (ground arith, tt);
  no_variable = (ground arith, tt);
}

breakout_up_example :
    (prevent_breakout (λ s. s) (λ s. s) (climb 1 ((b'x' ∷ []) ∷ []))
      ≡ ok (climb 1 ((b'x' ∷ []) ∷ [])))
    × (normpath (
          path_join
            (slash ∷ join_slash ((b'd' ∷ []) ∷ (b'e' ∷ []) ∷ []))
            (climb 1 ((b'x' ∷ []) ∷ [])))
        ≡ slash ∷ join_slash (drop_lasts 2 ((b'd' ∷ []) ∷ (b'e' ∷ []) ∷ []) ++ (b'x' ∷ []) ∷ []))
breakout_up_example =
    breakout_up (λ s. s) (λ s. s) (λ s h. refl) (λ s h. refl) (b'd' ∷ []) ((b'e' ∷ []) ∷ [])
      ((b'x' ∷ []) ∷ []) 1 (letter 100 (omega arith) (omega arith) (omega arith) (omega arith))
      (letter 101 (omega arith) (omega arith) (omega arith) (omega arith), tt)
      (letter 120 (omega arith) (omega arith) (omega arith) (omega arith), tt)

breakout_root_example :
    (path : Str) × (prevent_breakout (λ s. s) (λ s. s) (doubled (b'e' ∷ []) []) ≡ ok path)
    × (normpath (path_join (slash ∷ join_slash ((b'd' ∷ []) ∷ [])) path)
        ≡ slash ∷ join_slash ((b'e' ∷ []) ∷ []))
    × (is_in
          (slash ∷ join_slash ((b'd' ∷ []) ∷ []))
          (normpath (path_join (slash ∷ join_slash ((b'd' ∷ []) ∷ [])) path))
        ≡ false)
breakout_root_example =
    breakout_root (λ s. s) (λ s. s) (λ s h. refl) (λ s h. refl) (b'd' ∷ []) (b'e' ∷ []) [] []
      (letter 100 (omega arith) (omega arith) (omega arith) (omega arith)) tt
      (letter 101 (omega arith) (omega arith) (omega arith) (omega arith)) tt
      (unfold str_eq in refl)
