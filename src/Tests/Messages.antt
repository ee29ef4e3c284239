-- ===== src/Tests/Messages.antt =====
-- Runs of rec/dtn/messages.py and of Node._send_message.
use ma_sinafadavi_claude.Prelude.{
  ℕ, true, some, [], ◌∷◌, ◌||◌, Bytes, codes, Result, ok, err, ◌≡◌, refl, key_error,
  assertion_error, if◌then◌else◌, is_empty, Exec, ◌==◌, suc, arith, str_eq, member,
}
use ma_sinafadavi_claude.Dtn.Message.{
  BundleData, plain_bundle, ndata_put, reply, register, create, one,
}
use ma_sinafadavi_claude.Dtn.Message.Wire.{
  Value, dict, bool, int, text, field, stop, is_none, dictify_bundle, dictify, serialize, Fields,
  fresh,
}
use ma_sinafadavi_claude.Dtn.Message.Reader.{deserialize, get, has_only}
use ma_sinafadavi_claude.Dtn.Message.Dictify.{dictify_bundle_twice}
use ma_sinafadavi_claude.Dtn.Message.RoundTrip.{deserialize-serialize}
use ma_sinafadavi_claude.Dtn.Node.Frame.{big_endian, is_reply, send_message, send_message_framed}
use ma_sinafadavi_claude.Tests.Eids.{to_ascii, node1, node1_normal}

abbrev put_bundle : BundleData
put_bundle = record (plain_bundle ndata_put node1 node1) {
  payload = 1 ∷ 2 ∷ [];
  named_data = some (one (codes "data/a"));
}

-- a packer for this one message
abbrev packb : Value → Bytes
packb v = 7 ∷ []

abbrev unpackb : Bytes → Result Value
unpackb bytes = elim (dictify (create put_bundle)) [ ok d ↦ ok (dict d) | err e ↦ err e ]

deserialize-serialize_example :
    (bytes : Bytes) × (serialize packb (create put_bundle) ≡ ok bytes)
    × (deserialize to_ascii unpackb bytes ≡ ok (create put_bundle))
deserialize-serialize_example =
    deserialize-serialize to_ascii packb unpackb (create put_bundle) (λ d h. rw (h, unpackb))
      (record { source = node1_normal; destination = node1_normal; submitter = tt })

dictify_bundle_twice_example :
    (d : Fields) × ((dictify_bundle (fresh put_bundle)).0 ≡ ok d)
    × ((dictify_bundle (dictify_bundle (fresh put_bundle)).1).0 ≡ (
        if is_empty put_bundle.payload
          || ((put_bundle.node_type == 0)
              || (is_none put_bundle.submitter || is_none put_bundle.named_data))
        then err key_error
        else ok d))
dictify_bundle_twice_example = dictify_bundle_twice put_bundle

-- a peer that takes everything and answers with one byte, which stands for a Reply; the world
-- counts the calls
abbrev connect : Exec ℕ (Unit {0})
connect w = (ok tt, suc w)

abbrev sendall : Bytes → Exec ℕ (Unit {0})
sendall bytes w = (ok tt, suc w)

abbrev recv : ℕ → Exec ℕ Bytes
recv n w = if n == 8 then (ok (big_endian 8 1), suc w) else (ok (0 ∷ []), suc w)

abbrev unpack_reply : Bytes → Result Value
unpack_reply bytes = ok (
    dict (
      field (codes "type") (int 1)
        (field (codes "success") (bool true) (field (codes "error") (text []) stop))))

register_packed : serialize packb (register node1) ≡ ok (7 ∷ [])
unfolding serialize dictify
register_packed = refl

reply_unpacked : deserialize to_ascii unpack_reply (0 ∷ []) ≡ ok (reply true [])
unfolding deserialize get str_eq has_only member
reply_unpacked = refl

send_message_framed_example :
    send_message connect sendall recv to_ascii packb unpack_reply (register node1) 0
    ≡ ((if is_reply (reply true []) then ok (reply true []) else err assertion_error), 5)
send_message_framed_example =
    send_message_framed connect sendall recv to_ascii packb unpack_reply (register node1)
      (reply true []) (7 ∷ []) (0 ∷ []) 0 1 2 3 4 5 register_packed (ground arith) (ground arith)
      reply_unpacked refl refl refl refl refl
