-- ===== src/Dtn/Eid.antt =====
-- rec/dtn/eid.py: endpoint identifiers. An `EID` is a text in normal form, and the class's
-- constructor is `normalize`. `to_ascii` is the Unicode table that `int` consults, a parameter.
pub mod Decimal
pub mod Split
pub mod Normal
pub mod Parts
use ma_sinafadavi_claude.Prelude.{
  ℕ, Bool, true, false, ◌&&◌, ◌||◌, Option, none, some, List, [], ◌∷◌, ◌++◌, Str, codes, leb, ltb,
  ◌==◌, if◌then◌else◌, drop, is_empty, str_eq, starts_with, Result, ok, err, eid_error, value_error,
  index_error, ◌>>=◌,
}
use ma_sinafadavi_claude.Dtn.Eid.Decimal.{ℤ, pos, negsuc, int10, format_int}

abbrev pub dtn_none : Str
dtn_none = codes "dtn:none"

abbrev pub dtn_prefix : Str
dtn_prefix = codes "dtn://"

abbrev pub ipn_prefix : Str
ipn_prefix = codes "ipn:"

abbrev pub slash : ℕ
slash = b'/'

abbrev pub dot : ℕ
dot = b'.'

-- the characters of _NODE_RE
unfoldable pub node_char : ℕ → Bool
node_char c =
    (leb b'A' c && leb c b'Z')
    || ((leb b'a' c && leb c b'z')
        || ((leb b'0' c && leb c b'9')
            || ((leb 38 c && leb c 46)
                || ((c == b'_')
                    || ((c == b'~')
                        || ((c == b'!') || ((c == b'$') || ((c == b';') || (c == b'=')))))))))

-- _NODE_RE.match: `$` also matches before a newline that ends the text.
unfoldable pub matches_node : Str → Bool
matches_node [] = true
matches_node (c ∷ cs) =
    let rest = matches_node cs in (node_char c && rest) || ((c == 10) && is_empty cs)

-- s.isascii()
unfoldable pub is_ascii : Str → Bool
is_ascii [] = true
is_ascii (c ∷ cs) = ltb c 128 && is_ascii cs

-- s.split(sep, 1) where the separator is there, and `none` where it is not
unfoldable pub split_once : ℕ → Str → Option (Str × Str)
split_once sep [] = none
split_once sep (c ∷ cs) =
    let rest = split_once sep cs in
    if c == sep then some ([], cs) else elim rest [ none ↦ none | some (a, b) ↦ some (c ∷ a, b) ]

-- s.split(sep)
unfoldable pub prepend : ℕ → List Str → List Str
prepend c [] = (c ∷ []) ∷ []
prepend c (p ∷ ps) = (c ∷ p) ∷ ps

unfoldable pub split : ℕ → Str → List Str
unfolding prepend
split sep [] = [] ∷ []
split sep (c ∷ cs) = let rest = split sep cs in if c == sep then [] ∷ rest else prepend c rest

-- The branch of _normalize for "dtn://", after the prefix.
unfoldable pub normalize_service : Str → Str → Result Str
normalize_service node service =
    if matches_node node
    then (if is_empty service
        then ok (dtn_prefix ++ (node ++ slash ∷ []))
        else if is_ascii service
        then ok (dtn_prefix ++ (node ++ (slash ∷ service)))
        else err eid_error)
    else err eid_error

unfoldable pub normalize_dtn : Str → Result Str
unfolding normalize_service
normalize_dtn ssp =
    if str_eq ssp (codes "none")
    then err eid_error
    else if is_empty ssp
    then err eid_error
    else elim (split_once slash ssp) [
      | some (node, service) ↦ normalize_service node service
      | none ↦ normalize_service ssp []
    ]

-- f"{_IPN_PREFIX}{node}.{service}"
unfoldable pub format_ipn : ℕ → ℕ → Result Str
format_ipn node service = elim (format_int node) [
  | none ↦ err value_error
  | some n ↦ elim (format_int service) [
    | none ↦ err value_error
    | some s ↦ ok (ipn_prefix ++ (n ++ (dot ∷ s)))
  ]
]

-- The two range checks, and the text.
unfoldable pub checked_ipn : ℤ → ℤ → Result Str
unfolding format_ipn
checked_ipn (negsuc n) service = err eid_error
checked_ipn (pos node) (negsuc s) = err eid_error
checked_ipn (pos node) (pos service) = if ltb node 1 then err eid_error else format_ipn node service

-- The two parts of "N.S" as numbers.
unfoldable pub numbers_ipn : Option ℤ → Option ℤ → Result Str
unfolding checked_ipn
numbers_ipn (some node) (some service) = checked_ipn node service
numbers_ipn _ _ = err eid_error

-- There must be exactly two parts.
unfoldable pub parts_ipn : (Str → Str) → List Str → Result Str
unfolding numbers_ipn
parts_ipn to_ascii (a ∷ b ∷ []) = numbers_ipn (int10 to_ascii a) (int10 to_ascii b)
parts_ipn to_ascii _ = err eid_error

-- The branch of _normalize for "ipn:", after the prefix.
unfoldable pub normalize_ipn : (Str → Str) → Str → Result Str
normalize_ipn to_ascii rest =
    if starts_with rest (codes "//") then err eid_error else parts_ipn to_ascii (split dot rest)

-- EID(value)
unfoldable pub normalize : (Str → Str) → Str → Result Str
normalize to_ascii eid =
    if str_eq eid dtn_none
    then ok eid
    else if starts_with eid dtn_prefix
    then normalize_dtn (drop 6 eid)
    else if starts_with eid ipn_prefix
    then normalize_ipn to_ascii (drop 4 eid)
    else err eid_error

-- EID.dtn(node, service), where `none` and the empty text both mean no service
unfoldable pub dtn : (Str → Str) → Str → Option Str → Result Str
dtn to_ascii node none =
    if matches_node node
    then normalize to_ascii (dtn_prefix ++ (node ++ slash ∷ []))
    else err eid_error
dtn to_ascii node (some []) =
    if matches_node node
    then normalize to_ascii (dtn_prefix ++ (node ++ slash ∷ []))
    else err eid_error
dtn to_ascii node (some (c ∷ cs)) =
    if matches_node node
    then (if is_ascii (c ∷ cs)
        then normalize to_ascii (dtn_prefix ++ (node ++ (slash ∷ (c ∷ cs))))
        else err eid_error)
    else err eid_error

-- EID.ipn(node_number, service_number)
unfoldable pub ipn : (Str → Str) → ℤ → ℤ → Result Str
ipn to_ascii node service = do text ← checked_ipn node service; normalize to_ascii text

-- eid.node()
unfoldable pub node : Str → Option Str
node eid =
    if str_eq eid dtn_none
    then none
    else if starts_with eid dtn_prefix
    then elim (split_once slash (drop 6 eid)) [ some (a, b) ↦ some a | none ↦ some (drop 6 eid) ]
    else elim (split_once dot (drop 4 eid)) [ some (a, b) ↦ some a | none ↦ some (drop 4 eid) ]

-- eid.service()
unfoldable pub service : Str → Result (Option Str)
service eid =
    if str_eq eid dtn_none
    then ok none
    else if starts_with eid dtn_prefix
    then elim (split_once slash (drop 6 eid)) [ some (a, b) ↦ ok (some b) | none ↦ err index_error ]
    else elim (split_once dot (drop 4 eid)) [ some (a, b) ↦ ok (some b) | none ↦ err index_error ]
