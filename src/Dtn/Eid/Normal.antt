-- ===== src/Dtn/Eid/Normal.antt =====
-- Normal forms: what `normalize` accepts it accepts again, unchanged.
use ma_sinafadavi_claude.Prelude.{
  ℕ, ◌≤◌, ◌<◌, true, false, Option, none, some, List, [], ◌∷◌, ◌++◌, Str, codes, is_empty, str_eq,
  str_eq_iff, starts_with, length, ok, ◌≡◌, refl, arith, inl, inr, Bool-cases, Option-cases, drop,
}
use ma_sinafadavi_claude.Dtn.Eid.{
  dtn_none, dtn_prefix, ipn_prefix, slash, dot, matches_node, is_ascii, split_once, split,
  normalize_service, normalize_dtn, checked_ipn, normalize_ipn, normalize, numbers_ipn, parts_ipn,
}
use ma_sinafadavi_claude.Dtn.Eid.Decimal.{
  ℤ, pos, negsuc, int10, decimal, format_int, AreDigits, AreDigits-decimal, decimal_pos,
  int10-decimal, max_str_digits,
}
use ma_sinafadavi_claude.Dtn.Eid.Split.{
  Lacks, split_once-Lacks, split_two, matches_node-Lacks, AreDigits-Lacks,
}

-- the three forms of a normal EID
pub data IsNormal (e : Str) : Type 0 where
  is_none : e ≡ dtn_none → IsNormal e
  is_dtn :
      (node service : Str)
      → matches_node node ≡ true
      → is_ascii service ≡ true
      → e ≡ dtn_prefix ++ (node ++ (slash ∷ service))
      → IsNormal e
  is_ipn :
      (node service : ℕ)
      → 1 ≤ node
      → length (decimal node) ≤ max_str_digits
      → length (decimal service) ≤ max_str_digits
      → e ≡ ipn_prefix ++ (decimal node ++ (dot ∷ decimal service))
      → IsNormal e

normalize_service-IsNormal :
    (node service e : Str) → normalize_service node service ≡ ok e → IsNormal e
unfolding normalize_service
normalize_service-IsNormal node [] e h = elim (Bool-cases (matches_node node)) [
  | inl m ↦ is_dtn node [] m (unfold is_ascii in refl) (ground arith)
  | inr m ↦ absurd (ground arith)
]
normalize_service-IsNormal node (c ∷ cs) e h = elim (Bool-cases (matches_node node)) [
  | inl m ↦ elim (Bool-cases (is_ascii (c ∷ cs))) [
    | inl a ↦ is_dtn node (c ∷ cs) m a (ground arith)
    | inr a ↦ absurd (ground arith)
  ]
  | inr m ↦ absurd (ground arith)
]

normalize_dtn-IsNormal : (ssp e : Str) → normalize_dtn ssp ≡ ok e → IsNormal e
unfolding normalize_dtn
normalize_dtn-IsNormal ssp e h = elim (Option-cases (split_once slash ssp)) [
  | inl whole ↦ normalize_service-IsNormal ssp [] e (ground arith)
  | inr (p, parts) ↦ normalize_service-IsNormal p.0 p.1 e (ground arith)
]

checked_ipn-IsNormal : (a b : ℤ) (e : Str) → checked_ipn a b ≡ ok e → IsNormal e
unfolding checked_ipn format_int
checked_ipn-IsNormal (negsuc a) b e h = absurd (ground arith)
checked_ipn-IsNormal (pos a) (negsuc b) e h = absurd (ground arith)
checked_ipn-IsNormal (pos a) (pos b) e h =
    is_ipn a b (ground arith) (ground arith) (ground arith) (ground arith)

numbers_ipn-IsNormal : (a b : Option ℤ) (e : Str) → numbers_ipn a b ≡ ok e → IsNormal e
unfolding numbers_ipn
numbers_ipn-IsNormal (some a) (some b) e h = checked_ipn-IsNormal a b e h
numbers_ipn-IsNormal none _ e h = absurd (cc)
numbers_ipn-IsNormal (some a) none e h = absurd (cc)

parts_ipn-IsNormal :
    (to_ascii : Str → Str) (parts : List Str) (e : Str)
    → parts_ipn to_ascii parts ≡ ok e
    → IsNormal e
unfolding parts_ipn
parts_ipn-IsNormal u (a ∷ b ∷ []) e h = numbers_ipn-IsNormal (int10 u a) (int10 u b) e h
parts_ipn-IsNormal u [] e h = absurd (cc)
parts_ipn-IsNormal u (a ∷ []) e h = absurd (cc)
parts_ipn-IsNormal u (a ∷ b ∷ c ∷ more) e h = absurd (cc)

normalize_ipn-IsNormal :
    (to_ascii : Str → Str) (rest e : Str) → normalize_ipn to_ascii rest ≡ ok e → IsNormal e
unfolding normalize_ipn
normalize_ipn-IsNormal to_ascii rest e h =
    parts_ipn-IsNormal to_ascii (split dot rest) e (ground arith)

-- Whatever the constructor accepts, its result is in normal form.
pub normalize-IsNormal :
    (to_ascii : Str → Str) (s e : Str) → normalize to_ascii s ≡ ok e → IsNormal e
unfolding normalize
normalize-IsNormal to_ascii s e h = elim (Bool-cases (str_eq s dtn_none)) [
  | inl n ↦ is_none (ground (arith, str_eq_iff s dtn_none))
  | inr n ↦ elim (Bool-cases (starts_with s dtn_prefix)) [
    | inl d ↦ normalize_dtn-IsNormal (drop 6 s) e (ground arith)
    | inr d ↦ normalize_ipn-IsNormal to_ascii (drop 4 s) e (ground arith)
  ]
]

split_once-nonempty :
    (a b : Str)
    → (is_empty (a ++ (slash ∷ b)) ≡ false) × (str_eq (a ++ (slash ∷ b)) (codes "none") ≡ false)
unfolding str_eq
split_once-nonempty a b = (nonempty a, unlike a (codes "none") (omega arith))
  where
    nonempty : (a : Str) → is_empty (a ++ (slash ∷ b)) ≡ false
    nonempty [] = refl
    nonempty (c ∷ a) = refl

    unlike : (a t : Str) → Lacks slash t → str_eq (a ++ (slash ∷ b)) t ≡ false
    unlike [] [] l = refl
    unlike [] (d ∷ t) l = ground (arith, l.0)
    unlike (c ∷ a) [] l = refl
    unlike (c ∷ a) (d ∷ t) l = ground (arith, unlike a t l.1)

normalize_dtn-normal :
    (node service : Str)
    → matches_node node ≡ true
    → is_ascii service ≡ true
    → normalize_dtn (node ++ (slash ∷ service)) ≡ ok (dtn_prefix ++ (node ++ (slash ∷ service)))
unfolding normalize_dtn
normalize_dtn-normal node [] h k =
    ground (
      arith,
      split_once-nonempty node [],
      split_once-Lacks slash node [] (matches_node-Lacks node h),
    )
normalize_dtn-normal node (c ∷ cs) h k = ground (
  arith,
  split_once-nonempty node (c ∷ cs),
  split_once-Lacks slash node (c ∷ cs) (matches_node-Lacks node h),
)

pub checked_ipn-pos :
    (a b : ℕ)
    → 1 ≤ a
    → length (decimal a) ≤ max_str_digits
    → length (decimal b) ≤ max_str_digits
    → checked_ipn (pos a) (pos b) ≡ ok (ipn_prefix ++ (decimal a ++ (dot ∷ decimal b)))
unfolding checked_ipn format_int
checked_ipn-pos a b h k l = ground arith

digit_first :
    (ds b : Str) → AreDigits ds → 0 < length ds → starts_with (ds ++ b) (codes "//") ≡ false
unfolding starts_with
digit_first [] b h p = absurd (omega arith)
digit_first (c ∷ cs) b h p = ground (arith, h.0)

module _ (to_ascii : Str → Str) (to_ascii_id : (s : Str) → is_ascii s ≡ true → to_ascii s ≡ s) where
  AreDigits-is_ascii : (ds : Str) → AreDigits ds → is_ascii ds ≡ true
  unfolding is_ascii
  AreDigits-is_ascii [] h = refl
  AreDigits-is_ascii (c ∷ cs) h = ground (arith, h.0, h.1, AreDigits-is_ascii cs h.2)

  read_back :
      (n : ℕ) → length (decimal n) ≤ max_str_digits → int10 to_ascii (decimal n) ≡ some (pos n)
  read_back n h =
      int10-decimal to_ascii n
        (to_ascii_id (decimal n) (AreDigits-is_ascii (decimal n) (AreDigits-decimal n))) h

  normalize_ipn-normal :
      (a b : ℕ)
      → 1 ≤ a
      → length (decimal a) ≤ max_str_digits
      → length (decimal b) ≤ max_str_digits
      → normalize_ipn to_ascii (decimal a ++ (dot ∷ decimal b))
        ≡ ok (ipn_prefix ++ (decimal a ++ (dot ∷ decimal b)))
  unfolding normalize_ipn parts_ipn
  normalize_ipn-normal a b h k l =
      rw
        (
          digit_first (decimal a) (dot ∷ decimal b) (AreDigits-decimal a) (decimal_pos a),
          split_two dot (decimal a) (decimal b) (AreDigits-Lacks (decimal a) (AreDigits-decimal a))
              (AreDigits-Lacks (decimal b) (AreDigits-decimal b)),
          read_back a k,
          read_back b l,
        )
        (checked_ipn-pos a b h k l)

  pub normalize-normal : (e : Str) → IsNormal e → normalize to_ascii e ≡ ok e
  unfolding normalize starts_with str_eq
  normalize-normal e (is_none p) = rw p
  normalize-normal e (is_dtn node service m a p) = rw p (normalize_dtn-normal node service m a)
  normalize-normal e (is_ipn a b h k l p) = rw p (normalize_ipn-normal a b h k l)

  -- The constructor is idempotent: what it returns it accepts, and returns unchanged. Texts of
  -- ASCII characters are read by int() as they are.
  pub normalize_idempotent : (s e : Str) → normalize to_ascii s ≡ ok e → normalize to_ascii e ≡ ok e
  normalize_idempotent s e h = normalize-normal e (normalize-IsNormal to_ascii s e h)
