-- ===== src/Dtn/Eid/Parts.antt =====
-- The accessors node and service against the constructors.
use ma_sinafadavi_claude.Prelude.{
  ℕ, ◌≤◌, true, Option, none, some, [], ◌∷◌, ◌++◌, Str, str_eq, starts_with, length, ok, ◌≡◌, refl,
  arith, ◌⊎◌, inl, inr,
}
use ma_sinafadavi_claude.Dtn.Eid.{
  dtn_none, node_char, dtn_prefix, ipn_prefix, slash, dot, matches_node, is_ascii, normalize, node,
  service, dtn, ipn, checked_ipn,
}
use ma_sinafadavi_claude.Dtn.Eid.Decimal.{
  max_str_digits, ℤ, pos, negsuc, decimal, format_int, AreDigits-decimal,
}
use ma_sinafadavi_claude.Dtn.Eid.Split.{split_once-Lacks, matches_node-Lacks, AreDigits-Lacks}
use ma_sinafadavi_claude.Dtn.Eid.Normal.{
  IsNormal, is_none, is_dtn, is_ipn, normalize-IsNormal, normalize-normal, checked_ipn-pos,
}

dtn_parts :
    (n s : Str)
    → matches_node n ≡ true
    → (node (dtn_prefix ++ (n ++ (slash ∷ s))) ≡ some n)
      × (service (dtn_prefix ++ (n ++ (slash ∷ s))) ≡ ok (some s))
unfolding node service str_eq starts_with
dtn_parts n s h = (
  ground (arith, split_once-Lacks slash n s (matches_node-Lacks n h)),
  ground (arith, split_once-Lacks slash n s (matches_node-Lacks n h)),
)

ipn_parts :
    (a b : ℕ)
    → (node (ipn_prefix ++ (decimal a ++ (dot ∷ decimal b))) ≡ some (decimal a))
      × (service (ipn_prefix ++ (decimal a ++ (dot ∷ decimal b))) ≡ ok (some (decimal b)))
unfolding node service str_eq starts_with
ipn_parts a b = (
  ground (
    arith,
    split_once-Lacks dot (decimal a) (decimal b)
        (AreDigits-Lacks (decimal a) (AreDigits-decimal a)),
  ),
  ground (
    arith,
    split_once-Lacks dot (decimal a) (decimal b)
        (AreDigits-Lacks (decimal a) (AreDigits-decimal a)),
  ),
)

parts_of_normal :
    (e : Str)
    → IsNormal e
    → ((o : Option Str) × (service e ≡ ok o))
      × (((node e ≡ none) × (e ≡ dtn_none)) ⊎ ((n : Str) × (node e ≡ some n)))
parts_of_normal e (is_none p) =
    rw p (unfold node service str_eq in ((none, refl), inl (refl, refl)))
parts_of_normal e (is_dtn n s m a p) =
    rw p ((some s, (dtn_parts n s m).1), inr (n, (dtn_parts n s m).0))
parts_of_normal e (is_ipn a b h k l p) =
    rw p ((some (decimal b), (ipn_parts a b).1), inr (decimal a, (ipn_parts a b).0))

-- No accessor fails on an EID: `service` raises nothing, and only `dtn:none` has no node.
pub parts_total :
    (to_ascii : Str → Str) (s e : Str)
    → normalize to_ascii s ≡ ok e
    → ((o : Option Str) × (service e ≡ ok o))
      × (((node e ≡ none) × (e ≡ dtn_none)) ⊎ ((n : Str) × (node e ≡ some n)))
parts_total u s e h = parts_of_normal e (normalize-IsNormal u s e h)

nil_is_ascii : is_ascii [] ≡ true
unfolding is_ascii
nil_is_ascii = refl

abbrev pub AreNodeChars : Str → Type 0
AreNodeChars [] = Unit
AreNodeChars (c ∷ cs) = (node_char c ≡ true) × AreNodeChars cs

matches_node-newline : (n : Str) → AreNodeChars n → matches_node (n ++ 10 ∷ []) ≡ true
unfolding matches_node
matches_node-newline [] h = ground arith
matches_node-newline (c ∷ cs) h = ground (arith, h.0, matches_node-newline cs h.1)

-- the text that a service argument stands for
abbrev pub service_text : Option Str → Str
service_text none = []
service_text (some t) = t

module _ (to_ascii : Str → Str) (to_ascii_id : (s : Str) → is_ascii s ≡ true → to_ascii s ≡ s) where
  normal_dtn :
      (n s : Str)
      → matches_node n ≡ true
      → is_ascii s ≡ true
      → normalize to_ascii (dtn_prefix ++ (n ++ (slash ∷ s)))
        ≡ ok (dtn_prefix ++ (n ++ (slash ∷ s)))
  normal_dtn n s m a = normalize-normal to_ascii to_ascii_id _ (is_dtn n s m a refl)

  dtn-eq-ok :
      (n : Str) (s : Option Str) (e : Str)
      → dtn to_ascii n s ≡ ok e
      → (matches_node n ≡ true) × (e ≡ dtn_prefix ++ (n ++ (slash ∷ service_text s)))
  unfolding dtn
  dtn-eq-ok n none e h = ground (arith, normal_dtn n [], nil_is_ascii)
  dtn-eq-ok n (some []) e h = ground (arith, normal_dtn n [], nil_is_ascii)
  dtn-eq-ok n (some (c ∷ cs)) e h = ground (arith, normal_dtn n (c ∷ cs))

  -- EID.dtn returns, if it returns, an EID that has exactly the parts it was given, no service
  -- being the empty one. Texts of ASCII characters are read by int() as they are.
  pub parts-dtn :
      (n : Str) (s : Option Str) (e : Str)
      → dtn to_ascii n s ≡ ok e
      → (node e ≡ some n) × (service e ≡ ok (some (service_text s)))
  parts-dtn n s e h = let (m, p) = dtn-eq-ok n s e h in rw p (dtn_parts n (service_text s) m)

  ipn_checks :
      (a b : ℕ) (e : Str)
      → ipn to_ascii (pos a) (pos b) ≡ ok e
      → (1 ≤ a) × (length (decimal a) ≤ max_str_digits) × (length (decimal b) ≤ max_str_digits)
  unfolding ipn checked_ipn format_int
  ipn_checks a b e h = (ground arith, ground arith, ground arith)

  ipn-eq-ok :
      (a b : ℕ) (e : Str)
      → ipn to_ascii (pos a) (pos b) ≡ ok e
      → e ≡ ipn_prefix ++ (decimal a ++ (dot ∷ decimal b))
  unfolding ipn
  ipn-eq-ok a b e h =
      let (m, k, l) = ipn_checks a b e h in
      ground (
        arith,
        checked_ipn-pos a b m k l,
        normalize-normal to_ascii to_ascii_id (ipn_prefix ++ (decimal a ++ (dot ∷ decimal b)))
            (is_ipn a b m k l refl),
      )

  -- EID.ipn accepts only a positive node and a service that is not negative, and its result has
  -- them as its parts, in decimal. Texts of ASCII characters are read by int() as they are.
  pub parts-ipn :
      (a b : ℤ) (e : Str)
      → ipn to_ascii a b ≡ ok e
      → (n m : ℕ) × (a ≡ pos n)
        × (b ≡ pos m)
        × (1 ≤ n)
        × (node e ≡ some (decimal n))
        × (service e ≡ ok (some (decimal m)))
  parts-ipn (negsuc a) b e h = unfold ipn checked_ipn in absurd (cc)
  parts-ipn (pos a) (negsuc b) e h = unfold ipn checked_ipn in absurd (cc)
  parts-ipn (pos a) (pos b) e h =
      let p = ipn-eq-ok a b e h in
      (a, b, refl, refl, (ipn_checks a b e h).0, rw p (ipn_parts a b).0, rw p (ipn_parts a b).1)

  -- `$` also matches before a newline at the end: a node of allowed characters is accepted with a
  -- newline behind it, and the newline stays in the EID. Texts of ASCII characters are read by
  -- int() as they are.
  pub dtn_newline :
      (n : Str)
      → AreNodeChars n
      → dtn to_ascii (n ++ 10 ∷ []) none ≡ ok (dtn_prefix ++ ((n ++ 10 ∷ []) ++ slash ∷ []))
  unfolding dtn
  dtn_newline n h =
      rw (matches_node-newline n h)
        (normal_dtn (n ++ 10 ∷ []) [] (matches_node-newline n h) nil_is_ascii)
