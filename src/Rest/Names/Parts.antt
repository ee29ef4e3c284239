-- ===== src/Rest/Names/Parts.antt =====
-- Paths that are put together from components, under the functions of os.path.
use ma_sinafadavi_claude.Prelude.{
  ℕ, zero, suc, Bool, true, false, List, [], ◌∷◌, ◌++◌, Str, str_eq, is_empty, ◌≡◌, ◌≢◌, refl,
  arith, append_assoc, append-nil, ap, sym, ◌∙◌,
}
use ma_sinafadavi_claude.Dtn.Eid.{split, slash, dot}
use ma_sinafadavi_claude.Dtn.Eid.Split.{Lacks, split-Lacks}
use ma_sinafadavi_claude.Rest.Names.{
  backslash, dots, forward, ends_in_slash, drop_last, last_is_dots, join_slash, norm_comp,
  norm_comps,
}

-- an ordinary file name: no separator, no variable, and neither of the two special names
pub record IsName (c : Str) : Type 0 where
  pub full : is_empty c ≡ false
  pub not_dot : str_eq c (dot ∷ []) ≡ false
  pub not_dots : str_eq c dots ≡ false
  pub one_part : Lacks slash c
  pub no_backslash : Lacks backslash c
  pub no_variable : Lacks b'$' c

abbrev pub AreNames : List Str → Type 0
AreNames [] = Unit
AreNames (c ∷ cs) = IsName c × AreNames cs

-- the components with a number of `..` before them
unfoldable pub up : ℕ → List Str → List Str
up zero cs = cs
up (suc k) cs = dots ∷ up k cs

-- each component is one component
abbrev pub AreParts : List Str → Type 0
AreParts [] = Unit
AreParts (c ∷ cs) = Lacks slash c × AreParts cs

pub AreParts-names : (cs : List Str) → AreNames cs → AreParts cs
AreParts-names [] h = tt
AreParts-names (c ∷ cs) h = (h.0.one_part, AreParts-names cs h.1)

pub AreParts-append : (cs ds : List Str) → AreParts cs → AreParts ds → AreParts (cs ++ ds)
AreParts-append [] ds h k = k
AreParts-append (c ∷ cs) ds h k = (h.0, AreParts-append cs ds h.1 k)

pub AreParts-up : (k : ℕ) (cs : List Str) → AreParts cs → AreParts (up k cs)
unfolding up
AreParts-up zero cs h = h
AreParts-up (suc k) cs h = ((omega arith, (omega arith, tt)), AreParts-up k cs h)

split-append : (a b : Str) → Lacks slash a → split slash (a ++ slash ∷ b) ≡ a ∷ split slash b
unfolding split
split-append [] b h = ground arith
split-append (c ∷ a) b h = ground (arith, h.0, split-append a b h.1)

pub split-join_slash :
    (c : Str) (cs : List Str) → AreParts (c ∷ cs) → split slash (join_slash (c ∷ cs)) ≡ c ∷ cs
unfolding join_slash
split-join_slash c [] h = split-Lacks slash c h.0
split-join_slash c (d ∷ cs) h =
    rw (split-append c (join_slash (d ∷ cs)) h.0, split-join_slash d cs h.1)

pub join_slash-append :
    (c d : Str) (cs ds : List Str)
    → join_slash ((c ∷ cs) ++ (d ∷ ds)) ≡ join_slash (c ∷ cs) ++ slash ∷ join_slash (d ∷ ds)
unfolding join_slash
join_slash-append c d [] ds = refl
join_slash-append c d (e ∷ cs) ds = rw (join_slash-append e d cs ds, append_assoc)

-- a name is appended as it is
norm_comp-name :
    (absolute : Bool) (comps : List Str) (c : Str)
    → IsName c
    → norm_comp absolute comps c ≡ comps ++ c ∷ []
unfolding norm_comp
norm_comp-name absolute comps c h = ground arith

pub norm_comps-names :
    (absolute : Bool) (comps cs : List Str)
    → AreNames cs
    → norm_comps absolute comps cs ≡ comps ++ cs
unfolding norm_comps
norm_comps-names absolute comps [] h = rw append-nil
norm_comps-names absolute comps (c ∷ cs) h = rw (
  norm_comp-name absolute comps c h.0,
  norm_comps-names absolute (comps ++ c ∷ []) cs h.1,
  append_assoc,
)

up_shift : (n : ℕ) (xs : List Str) → up n [] ++ dots ∷ xs ≡ up (suc n) [] ++ xs
unfolding up
up_shift zero xs = refl
up_shift (suc n) xs = ap (λ ys. dots ∷ ys) (up_shift n xs)

last_is_dots-up : (n : ℕ) → last_is_dots (up (suc n) []) ≡ true
unfolding up last_is_dots str_eq
last_is_dots-up zero = refl
last_is_dots-up (suc n) = last_is_dots-up n

-- in a relative path, `..` stays where only `..` stands before it
norm_comp-dots : (n : ℕ) → norm_comp false (up n []) dots ≡ up n [] ++ dots ∷ []
unfolding norm_comp up str_eq
norm_comp-dots zero = refl
norm_comp-dots (suc n) = rw (last_is_dots-up n)

pub norm_comps-up :
    (n k : ℕ) (cs : List Str)
    → AreNames cs
    → norm_comps false (up n []) (up k cs) ≡ up n [] ++ up k cs
unfolding norm_comps up
norm_comps-up n zero cs h = norm_comps-names false (up n []) cs h
norm_comps-up n (suc k) cs h =
    ap (λ comps. norm_comps false comps (up k cs))
      (norm_comp-dots n ∙ (up_shift n [] ∙ append-nil (up (suc n) [])))
    ∙ (norm_comps-up (suc n) k cs h ∙ sym (up_shift n (up k cs)))

-- the components without the last `k`
unfoldable pub drop_lasts : ℕ → List Str → List Str
drop_lasts zero cs = cs
drop_lasts (suc k) cs = drop_lasts k (drop_last cs)

last_is_dots-names : (cs : List Str) → AreNames cs → last_is_dots cs ≡ false
unfolding last_is_dots
last_is_dots-names [] h = refl
last_is_dots-names (c ∷ []) h = h.0.not_dots
last_is_dots-names (c ∷ d ∷ cs) h = last_is_dots-names (d ∷ cs) h.1

AreNames-drop_last : (cs : List Str) → AreNames cs → AreNames (drop_last cs)
unfolding drop_last
AreNames-drop_last [] h = tt
AreNames-drop_last (c ∷ []) h = tt
AreNames-drop_last (c ∷ d ∷ cs) h = (h.0, AreNames-drop_last (d ∷ cs) h.1)

-- in an absolute path, `..` takes a component away
norm_comp-parent : (ds : List Str) → AreNames ds → norm_comp true ds dots ≡ drop_last ds
unfolding norm_comp str_eq
norm_comp-parent ds h = rw (last_is_dots-names ds h)

pub norm_comps-parents :
    (k : ℕ) (ds cs : List Str)
    → AreNames ds
    → AreNames cs
    → norm_comps true ds (up k cs) ≡ drop_lasts k ds ++ cs
unfolding norm_comps up drop_lasts
norm_comps-parents zero ds cs h i = norm_comps-names true ds cs i
norm_comps-parents (suc k) ds cs h i =
    ap (λ comps. norm_comps true comps (up k cs)) (norm_comp-parent ds h)
    ∙ norm_comps-parents k (drop_last ds) cs (AreNames-drop_last ds h) i

pub norm_comps-append :
    (absolute : Bool) (comps cs ds : List Str)
    → norm_comps absolute comps (cs ++ ds) ≡ norm_comps absolute (norm_comps absolute comps cs) ds
unfolding norm_comps
norm_comps-append absolute comps [] ds = refl
norm_comps-append absolute comps (c ∷ cs) ds =
    norm_comps-append absolute (norm_comp absolute comps c) cs ds

-- A text without backslashes has none to turn round.
pub forward-Lacks : (s : Str) → Lacks backslash s → forward s ≡ s
unfolding forward
forward-Lacks [] h = refl
forward-Lacks (c ∷ s) h = ground (arith, h.0, forward-Lacks s h.1)

pub Lacks-append : (x : ℕ) (a b : Str) → Lacks x a → Lacks x b → Lacks x (a ++ b)
Lacks-append x [] b h k = k
Lacks-append x (c ∷ a) b h k = (h.0, Lacks-append x a b h.1 k)

ends_in_slash-Lacks : (a : Str) → Lacks slash a → ends_in_slash a ≡ false
unfolding ends_in_slash
ends_in_slash-Lacks [] h = refl
ends_in_slash-Lacks (c ∷ []) h = ground (arith, h.0)
ends_in_slash-Lacks (c ∷ d ∷ a) h = ends_in_slash-Lacks (d ∷ a) h.1

pub ends_in_slash-append :
    (a b : Str) → is_empty b ≡ false → ends_in_slash (a ++ b) ≡ ends_in_slash b
unfolding ends_in_slash
ends_in_slash-append [] b h = refl
ends_in_slash-append (c ∷ []) [] h = absurd (cc)
ends_in_slash-append (c ∷ []) (d ∷ b) h = refl
ends_in_slash-append (c ∷ d ∷ a) b h = ends_in_slash-append (d ∷ a) b h

-- every component has characters
abbrev pub AreFull : List Str → Type 0
AreFull [] = Unit
AreFull (c ∷ cs) = (is_empty c ≡ false) × AreFull cs

pub AreFull-up : (k : ℕ) (cs : List Str) → AreNames cs → AreFull (up k cs)
unfolding up
AreFull-up zero [] h = tt
AreFull-up zero (c ∷ cs) h = (h.0.full, AreFull-up zero cs h.1)
AreFull-up (suc k) cs h = (refl, AreFull-up k cs h)

pub is_empty-join_slash :
    (c : Str) (cs : List Str) → is_empty c ≡ false → is_empty (join_slash (c ∷ cs)) ≡ false
unfolding join_slash
is_empty-join_slash c [] h = h
is_empty-join_slash [] (d ∷ cs) h = absurd (cc)
is_empty-join_slash (x ∷ c) (d ∷ cs) h = refl

pub ends_in_slash-join_slash :
    (c : Str) (cs : List Str)
    → AreParts (c ∷ cs)
    → AreFull (c ∷ cs)
    → ends_in_slash (join_slash (c ∷ cs)) ≡ false
unfolding join_slash
ends_in_slash-join_slash c [] h k = ends_in_slash-Lacks c h.0
ends_in_slash-join_slash c (d ∷ cs) h k =
    ap ends_in_slash (sym (append_assoc c (slash ∷ []) (join_slash (d ∷ cs))))
    ∙ (ends_in_slash-append (c ++ slash ∷ []) (join_slash (d ∷ cs)) (is_empty-join_slash d cs k.1.0)
        ∙ ends_in_slash-join_slash d cs h.1 k.1)

-- no component has the character
abbrev pub AllLack : ℕ → List Str → Type 0
AllLack x [] = Unit
AllLack x (c ∷ cs) = Lacks x c × AllLack x cs

pub Lacks-join_slash : (x : ℕ) (cs : List Str) → slash ≢ x → AllLack x cs → Lacks x (join_slash cs)
unfolding join_slash
Lacks-join_slash x [] n h = tt
Lacks-join_slash x (c ∷ []) n h = h.0
Lacks-join_slash x (c ∷ d ∷ cs) n h =
    Lacks-append x c (slash ∷ join_slash (d ∷ cs)) h.0 (n, Lacks-join_slash x (d ∷ cs) n h.1)

pub AllLack-backslash : (cs : List Str) → AreNames cs → AllLack backslash cs
AllLack-backslash [] h = tt
AllLack-backslash (c ∷ cs) h = (h.0.no_backslash, AllLack-backslash cs h.1)

pub AllLack-variable : (cs : List Str) → AreNames cs → AllLack b'$' cs
AllLack-variable [] h = tt
AllLack-variable (c ∷ cs) h = (h.0.no_variable, AllLack-variable cs h.1)

pub AllLack-up : (x k : ℕ) (cs : List Str) → dot ≢ x → AllLack x cs → AllLack x (up k cs)
unfolding up
AllLack-up x zero cs n h = h
AllLack-up x (suc k) cs n h = ((n, (n, tt)), AllLack-up x k cs n h)
