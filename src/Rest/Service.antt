-- ===== src/Rest/Service.antt =====
-- Names of services on the network, from rec/rest/nodes/node.py. An identifier is the text of a
-- UUID; what `UUID` accepts of a text is a parameter of whoever reads one.
use ma_sinafadavi_claude.Prelude.{
  ℕ, ◌+◌, ◌-◌, ◌∷◌, ◌++◌, Str, codes, length, take, drop, ◌≡◌, arith, length-append, take-append,
  drop-append,
}

abbrev pub service_suffix : Str
service_suffix = codes "._urban-cp._tcp.local."

unfoldable pub zeroconf_service_type : Str → Str
zeroconf_service_type t = codes "_" ++ (t ++ service_suffix)

unfoldable pub zeroconf_service_name : Str → Str → Str
zeroconf_service_name t id = codes "_" ++ (t ++ (id ++ service_suffix))

-- name[-58:-22], where an index before the start is the start
unfoldable pub id_text : Str → Str
id_text name = let n = length name in take ((n - 22) - (n - 58)) (drop (n - 58) name)

length-zeroconf_service_name :
    (t id : Str) → length id ≡ 36 → length (zeroconf_service_name t id) ≡ length t + 59
unfolding zeroconf_service_name
length-zeroconf_service_name t id h =
    omega (arith, length-append t (id ++ service_suffix), length-append id service_suffix)

take_exact : (n : ℕ) (xs ys : Str) → n ≡ length xs → take n (xs ++ ys) ≡ xs
take_exact n xs ys h = rw h (take-append xs ys)

drop_exact : (n : ℕ) (xs ys : Str) → n ≡ length xs → drop n (xs ++ ys) ≡ ys
drop_exact n xs ys h = rw h (drop-append xs ys)

drop-zeroconf_service_name :
    (t id : Str) → drop (length t + 59 - 58) (zeroconf_service_name t id) ≡ id ++ service_suffix
unfolding zeroconf_service_name
drop-zeroconf_service_name t id =
    drop_exact (length t + 59 - 58) (b'_' ∷ t) (id ++ service_suffix) (omega arith)

-- The identifier is read back from the name of a service, whatever its type, if it has the 36
-- characters of a UUID.
pub id_text-zeroconf_service_name :
    (t id : Str) → length id ≡ 36 → id_text (zeroconf_service_name t id) ≡ id
unfolding id_text
id_text-zeroconf_service_name t id h =
    rw (length-zeroconf_service_name t id h, drop-zeroconf_service_name t id)
      (take_exact (length t + 59 - 22 - (length t + 59 - 58)) id service_suffix (omega arith))
