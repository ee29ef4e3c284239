-- ===== src/Rest/Names.antt =====
-- How names become paths: prevent_breakout of rec/util/fs.py, and the functions of POSIX os.path that
-- it and rec/rest/job.py call. `expanduser` and `expandvars` depend on the environment and are
-- parameters.
pub mod Parts
pub mod Climb
pub mod Below
pub mod Breakout
use ma_sinafadavi_claude.Prelude.{
  ℕ, Bool, true, false, ◌&&◌, ◌||◌, not, List, [], ◌∷◌, ◌++◌, Str, ◌==◌, if◌then◌else◌, str_eq,
  starts_with, is_empty, map, Result, ok, err, value_error,
}
use ma_sinafadavi_claude.Dtn.Eid.{split, slash, dot}

abbrev pub backslash : ℕ
backslash = 92

abbrev pub dots : Str
dots = dot ∷ dot ∷ []

-- path.replace("\\", "/")
unfoldable pub forward : Str → Str
forward [] = []
forward (c ∷ cs) = (if c == backslash then slash else c) ∷ forward cs

-- path.endswith("/")
unfoldable pub ends_in_slash : Str → Bool
ends_in_slash [] = false
ends_in_slash (c ∷ []) = c == slash
ends_in_slash (c ∷ d ∷ cs) = ends_in_slash (d ∷ cs)

-- xs[:-1]
unfoldable pub drop_last {ℓ} : {A : Type ℓ} → List A → List A
drop_last [] = []
drop_last (x ∷ []) = []
drop_last (x ∷ y ∷ xs) = x ∷ drop_last (y ∷ xs)

-- new_comps and new_comps[-1] == ".."
unfoldable pub last_is_dots : List Str → Bool
last_is_dots [] = false
last_is_dots (c ∷ []) = str_eq c dots
last_is_dots (c ∷ d ∷ cs) = last_is_dots (d ∷ cs)

-- "/".join(comps)
unfoldable pub join_slash : List Str → Str
join_slash [] = []
join_slash (c ∷ []) = c
join_slash (c ∷ d ∷ cs) = c ++ slash ∷ join_slash (d ∷ cs)

-- the slashes that normpath keeps at the front: POSIX allows two to mean something else than one
unfoldable pub initial_slashes : Str → Str
initial_slashes s =
    if starts_with s (slash ∷ slash ∷ []) && not (starts_with s (slash ∷ slash ∷ slash ∷ []))
    then slash ∷ slash ∷ []
    else if starts_with s (slash ∷ [])
    then slash ∷ []
    else []

-- one round of the loop of normpath over the components
unfoldable pub norm_comp : Bool → List Str → Str → List Str
unfolding last_is_dots
norm_comp absolute comps c =
    if is_empty c || str_eq c (dot ∷ [])
    then comps
    else if not (str_eq c dots) || ((not absolute && is_empty comps) || last_is_dots comps)
    then comps ++ c ∷ []
    else drop_last comps

unfoldable pub norm_comps : Bool → List Str → List Str → List Str
unfolding norm_comp
norm_comps absolute comps [] = comps
norm_comps absolute comps (c ∷ cs) = norm_comps absolute (norm_comp absolute comps c) cs

-- the text, or "." for the empty one
unfoldable pub or_dot : Str → Str
or_dot [] = dot ∷ []
or_dot (c ∷ cs) = c ∷ cs

unfoldable pub normpath : Str → Str
unfolding initial_slashes norm_comps join_slash or_dot
normpath s =
    let front = initial_slashes s in
    or_dot (front ++ join_slash (norm_comps (not (is_empty front)) [] (split slash s)))

-- os.path.join(a, b)
unfoldable pub path_join : Str → Str → Str
unfolding ends_in_slash
path_join a b =
    if starts_with b (slash ∷ [])
    then b
    else if is_empty a || ends_in_slash a
    then a ++ b
    else a ++ slash ∷ b

-- os.path.basename: what stands behind the last slash
unfoldable pub basename_after : Str → Str → Str
basename_after acc [] = acc
basename_after acc (c ∷ cs) = basename_after (if c == slash then [] else acc ++ c ∷ []) cs

unfoldable pub basename : Str → Str
unfolding basename_after
basename s = basename_after [] s

-- what is compared with its normal form: the path without a slash at its end
unfoldable pub check_path : Str → Str
check_path path = if ends_in_slash path then drop_last path else path

-- path[1:], if it begins with a slash
unfoldable pub strip_slash : Str → Str
strip_slash [] = []
strip_slash (c ∷ cs) = if c == slash then cs else c ∷ cs

module _ (expanduser expandvars : Str → Str) where
  -- the three comparisons, all of which must find no difference
  unfoldable pub is_plain : Str → Bool
  unfolding normpath forward
  is_plain check =
      str_eq (forward (normpath check)) check
      && (str_eq (expanduser check) check && str_eq (expandvars check) check)

  unfoldable pub prevent_breakout : Str → Result Str
  unfolding is_plain check_path strip_slash forward
  prevent_breakout s =
      let path = forward s in
      if str_eq path (slash ∷ [])
      then ok []
      else if is_plain (check_path path)
      then ok (strip_slash path)
      else err value_error
