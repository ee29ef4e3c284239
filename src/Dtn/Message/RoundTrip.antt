-- ===== src/Dtn/Message/RoundTrip.antt =====
-- What serialize writes, deserialize reads back.
use ma_sinafadavi_claude.Prelude.{
  ℕ, true, Option, none, some, List, [], ◌∷◌, Str, Bytes, codes, not, str_eq, member, ◌==◌,
  if◌then◌else◌, is_empty, Result, ok, ◌≡◌, refl, arith,
}
use ma_sinafadavi_claude.Dtn.Eid.{normalize}
use ma_sinafadavi_claude.Dtn.Message.{
  BundleData, NamedData, one, many, Message, reply, register, fetch, fetch_reply, create,
}
use ma_sinafadavi_claude.Dtn.Message.Wire.{
  Value, int, bool, bin, text, list, dict, Fields, stop, field, is_none, own_dict, dictify_bundles,
  dictify, serialize, texts, text_value, named_value, Items, end, item,
}
use ma_sinafadavi_claude.Dtn.Message.Reader.{
  deserialize, make_bundle, make_bundles, get, has_only, bundle_keys, texts_of, bundles_of,
  bundle_of, of_value, named_of, submitter_of, eid_of, bytes_or_empty, int_or,
}
use ma_sinafadavi_claude.Dtn.Message.Dictify.{
  trimmed, dictify_bundle-fresh, get-field_if, has_only-field_if,
}

texts_of-texts : (ss : List Str) → texts_of (texts ss) ≡ ok ss
unfolding texts_of texts
texts_of-texts [] = refl
texts_of-texts (s ∷ ss) = rw (texts_of-texts ss)

module _ (b : BundleData) where
  dict_has_only : has_only bundle_keys (own_dict (trimmed b)) ≡ true
  unfolding own_dict trimmed has_only member str_eq
  dict_has_only = simp has_only-field_if

  dict_type : get (codes "type") (own_dict (trimmed b)) ≡ some (int b.type)
  unfolding own_dict trimmed get str_eq
  dict_type = refl

  dict_source : get (codes "source") (own_dict (trimmed b)) ≡ some (text b.source)
  unfolding own_dict trimmed get str_eq
  dict_source = refl

  dict_destination : get (codes "destination") (own_dict (trimmed b)) ≡ some (text b.destination)
  unfolding own_dict trimmed get str_eq
  dict_destination = refl

  dict_payload :
      get (codes "payload") (own_dict (trimmed b))
      ≡ (if not (is_empty b.payload) then some (bin b.payload) else none)
  unfolding own_dict trimmed get str_eq
  dict_payload = simp get-field_if

  dict_success : get (codes "success") (own_dict (trimmed b)) ≡ some (bool b.success)
  unfolding own_dict trimmed get str_eq
  dict_success = simp get-field_if

  dict_error : get (codes "error") (own_dict (trimmed b)) ≡ some (text b.error)
  unfolding own_dict trimmed get str_eq
  dict_error = simp get-field_if

  dict_node_type :
      get (codes "node_type") (own_dict (trimmed b))
      ≡ (if not (b.node_type == 0) then some (int b.node_type) else none)
  unfolding own_dict trimmed get str_eq
  dict_node_type = simp get-field_if

  dict_submitter :
      get (codes "submitter") (own_dict (trimmed b))
      ≡ (if not (is_none b.submitter) then some (text_value b.submitter) else none)
  unfolding own_dict trimmed get str_eq
  dict_submitter = simp get-field_if

  dict_named_data :
      get (codes "named_data") (own_dict (trimmed b))
      ≡ (if not (is_none b.named_data) then some (named_value b.named_data) else none)
  unfolding own_dict trimmed get str_eq
  dict_named_data = simp get-field_if

module _ (to_ascii : Str → Str) where
  abbrev pub IsNormalSubmitter : Option Str → Type 0
  IsNormalSubmitter none = Unit
  IsNormalSubmitter (some s) = normalize to_ascii s ≡ ok s

  -- the EIDs of a bundle are in normal form, as those that the class makes are
  pub record IsNormalBundle (b : BundleData) : Type 0 where
    pub source : normalize to_ascii b.source ≡ ok b.source
    pub destination : normalize to_ascii b.destination ≡ ok b.destination
    pub submitter : IsNormalSubmitter b.submitter

  submitter_back :
      (s : Option Str)
      → IsNormalSubmitter s
      → submitter_of to_ascii (if not (is_none s) then some (text_value s) else none) ≡ ok s
  unfolding submitter_of is_none text_value
  submitter_back none h = refl
  submitter_back (some s) h = rw h

  named_back :
      (d : Option NamedData)
      → named_of (if not (is_none d) then some (named_value d) else none) ≡ ok d
  unfolding named_of is_none named_value
  named_back none = refl
  named_back (some (one s)) = refl
  named_back (some (many ss)) = rw (texts_of-texts ss)

  payload_back :
      (p : Bytes) → bytes_or_empty (if not (is_empty p) then some (bin p) else none) ≡ ok p
  unfolding bytes_or_empty
  payload_back [] = refl
  payload_back (x ∷ p) = refl

  node_type_back : (n : ℕ) → int_or 0 (if not (n == 0) then some (int n) else none) ≡ ok n
  unfolding int_or
  node_type_back n = ground arith

  eid_back : (s : Str) → normalize to_ascii s ≡ ok s → eid_of to_ascii (some (text s)) ≡ ok s
  unfolding eid_of
  eid_back s h = h

  make_bundle-own_dict :
      (b : BundleData) → IsNormalBundle b → make_bundle to_ascii (own_dict (trimmed b)) ≡ ok b
  unfolding make_bundle
  make_bundle-own_dict b h =
      rw
        (
          dict_has_only b,
          dict_type b,
          dict_source b,
          dict_destination b,
          dict_payload b,
          dict_success b,
          dict_error b,
          dict_node_type b,
          dict_submitter b,
          dict_named_data b,
        )
        (simp (
          eid_back b.source h.source,
          eid_back b.destination h.destination,
          payload_back b.payload,
          node_type_back b.node_type,
          submitter_back b.submitter h.submitter,
          named_back b.named_data,
        ))

  abbrev pub AreNormalBundles : List BundleData → Type 0
  AreNormalBundles [] = Unit
  AreNormalBundles (b ∷ bs) = IsNormalBundle b × AreNormalBundles bs

  -- the items that the bundles of a FetchReply become
  items : List BundleData → Items
  items [] = end
  items (b ∷ bs) = item (dict (own_dict (trimmed b))) (items bs)

  dictify_bundles-items : (bs : List BundleData) → dictify_bundles bs ≡ ok (items bs)
  unfolding dictify_bundles items
  dictify_bundles-items [] = refl
  dictify_bundles-items (b ∷ bs) = rw (dictify_bundle-fresh b, dictify_bundles-items bs)

  make_bundles-items :
      (bs : List BundleData) → AreNormalBundles bs → make_bundles to_ascii (items bs) ≡ ok bs
  unfolding make_bundles items
  make_bundles-items [] h = refl
  make_bundles-items (b ∷ bs) h = rw (make_bundle-own_dict b h.0, make_bundles-items bs h.1)

  -- A message whose EIDs are in normal form
  abbrev pub IsNormalMessage : Message → Type 0
  IsNormalMessage (fetch_reply s e bs) = AreNormalBundles bs
  IsNormalMessage (create b) = IsNormalBundle b
  IsNormalMessage _ = Unit

  -- the dict of a message
  message_dict : Message → Fields
  unfolding items
  message_dict (reply s e) =
      field (codes "type") (int 1)
        (field (codes "success") (bool s) (field (codes "error") (text e) stop))
  message_dict (register e) =
      field (codes "type") (int 2) (field (codes "endpoint_id") (text e) stop)
  message_dict (fetch e n) =
      field (codes "type") (int 3)
        (field (codes "endpoint_id") (text e) (field (codes "node_type") (int n) stop))
  message_dict (fetch_reply s e bs) = field (codes "type") (int 4) (
      field (codes "success") (bool s)
        (field (codes "error") (text e) (field (codes "bundles") (list (items bs)) stop)))
  message_dict (create b) =
      field (codes "type") (int 5) (field (codes "bundle") (dict (own_dict (trimmed b))) stop)

  dictify-message_dict : (m : Message) → dictify m ≡ ok (message_dict m)
  unfolding dictify message_dict
  dictify-message_dict (fetch_reply s e bs) = rw (dictify_bundles-items bs)
  dictify-message_dict (create b) = rw (dictify_bundle-fresh b)
  dictify-message_dict _ = refl

  of_value-message_dict :
      (m : Message) → IsNormalMessage m → of_value to_ascii (dict (message_dict m)) ≡ ok m
  unfolding of_value message_dict get str_eq has_only member bundles_of bundle_of
  of_value-message_dict (fetch_reply s e bs) h = rw (make_bundles-items bs h)
  of_value-message_dict (create b) h = rw (make_bundle-own_dict b h)
  of_value-message_dict _ h = refl

  -- A message whose EIDs are in normal form is sent and read back as it was, in every field, also
  -- those that dictify leaves out because they have their default; the packer has only to give
  -- back the dict of this message.
  pub deserialize-serialize :
      (packb : Value → Bytes) (unpackb : Bytes → Result Value) (m : Message)
      → ((d : Fields) → dictify m ≡ ok d → unpackb (packb (dict d)) ≡ ok (dict d))
      → IsNormalMessage m
      → (bytes : Bytes) × (serialize packb m ≡ ok bytes)
        × (deserialize to_ascii unpackb bytes ≡ ok m)
  unfolding serialize deserialize
  deserialize-serialize packb unpackb m back h = (
    packb (dict (message_dict m)),
    rw (dictify-message_dict m),
    rw (back (message_dict m) (dictify-message_dict m), of_value-message_dict m h),
  )
