-- ===== src/Tests/Eids.antt =====
-- Runs of rec/dtn/eid.py, as in tests/dtn/test_eid.py.
use ma_sinafadavi_claude.Prelude.{true, some, Str, codes, ok, ◌≡◌, refl, str_eq, starts_with}
use ma_sinafadavi_claude.Dtn.Eid.{
  normalize, dtn, ipn, node_char, is_ascii, normalize_dtn, split_once, matches_node, checked_ipn,
  normalize_ipn, parts_ipn, split,
}
use ma_sinafadavi_claude.Dtn.Eid.Decimal.{pos, decimal, format_int, int10, is_space, read_digits}
use ma_sinafadavi_claude.Dtn.Eid.Normal.{normalize_idempotent}

abbrev pub to_ascii : Str → Str
to_ascii s = s

abbrev to_ascii_id : (s : Str) → is_ascii s ≡ true → to_ascii s ≡ s
to_ascii_id s h = refl

abbrev pub node1 : Str
node1 = codes "dtn://node1/test"

pub node1_normal : normalize to_ascii (codes "dtn://node1/test") ≡ ok node1
unfolding normalize str_eq starts_with normalize_dtn split_once matches_node node_char is_ascii
node1_normal = refl

dtn-node1 : dtn to_ascii (codes "node1") (some (codes "test")) ≡ ok node1
unfolding dtn normalize matches_node node_char is_ascii str_eq starts_with normalize_dtn split_once
dtn-node1 = refl

ipn_23 : ipn to_ascii (pos 23) (pos 42) ≡ ok (codes "ipn:23.42")
unfolding ipn normalize checked_ipn format_int decimal str_eq starts_with normalize_ipn parts_ipn
    split int10 is_space read_digits
ipn_23 = refl

normalize_idempotent_example : normalize to_ascii node1 ≡ ok node1
normalize_idempotent_example =
    normalize_idempotent to_ascii to_ascii_id (codes "dtn://node1/test") node1 node1_normal
