-- ===== src/Dtn/Message/Wire.antt =====
-- The plain values that msgpack packs, and what `dictify` and `serialize` of
-- rec/dtn/messages.py make of messages and bundles. The packer is a parameter.
use ma_sinafadavi_claude.Prelude.{
  ℕ, Bool, true, false, Option, none, some, List, [], ◌∷◌, Str, Bytes, codes, ◌==◌, is_empty,
  Result, ok, err, ◌>>=◌, key_error, Exec, after,
}
use ma_sinafadavi_claude.Dtn.Message.{
  BundleData, NamedData, one, many, Message, reply, register, fetch, fetch_reply, create,
}

mutual
  pub data Value : Type 0 where
    nil : Value
    int : ℕ → Value
    bool : Bool → Value
    bin : Bytes → Value
    text : Str → Value
    list : Items → Value
    dict : Fields → Value

  pub data Items : Type 0 where
    end : Items
    item : Value → Items → Items

  pub data Fields : Type 0 where
    stop : Fields
    field : Str → Value → Fields → Fields

-- A BundleData object with the attributes that its own `__dict__` still has; one that was deleted
-- reads as the default of its class, which is why it was deleted.
pub record BundleObject : Type 0 where
  pub value : BundleData
  pub has_payload : Bool
  pub has_node_type : Bool
  pub has_submitter : Bool
  pub has_named_data : Bool

unfoldable pub fresh : BundleData → BundleObject
fresh b = record {
  value = b;
  has_payload = true;
  has_node_type = true;
  has_submitter = true;
  has_named_data = true;
}

unfoldable pub is_none {ℓ} : {A : Type ℓ} → Option A → Bool
is_none none = true
is_none (some x) = false

unfoldable pub texts : List Str → Items
texts [] = end
texts (s ∷ ss) = item (text s) (texts ss)

unfoldable pub named_value : Option NamedData → Value
unfolding texts
named_value none = nil
named_value (some (one s)) = text s
named_value (some (many ss)) = list (texts ss)

unfoldable pub text_value : Option Str → Value
text_value none = nil
text_value (some s) = text s

abbrev pub field_if : Bool → Str → Value → Fields → Fields
field_if true k v rest = field k v rest
field_if false k v rest = rest

-- the object's `__dict__`
unfoldable pub own_dict : BundleObject → Fields
unfolding named_value text_value
own_dict o =
    let b = o.value in
    field (codes "type") (int b.type) (
      field (codes "source") (text b.source) (
        field (codes "destination") (text b.destination) (
          field_if o.has_payload (codes "payload") (bin b.payload) (
            field (codes "success") (bool b.success) (
              field (codes "error") (text b.error) (
                field_if o.has_node_type (codes "node_type") (int b.node_type) (
                  field_if o.has_submitter (codes "submitter") (text_value b.submitter) (
                    field_if o.has_named_data (codes "named_data") (named_value b.named_data)
                      stop))))))))

-- del own_dict[key], where `has` says whether the key is there and `without` is the object without it
unfoldable pub delete_key : Bool → BundleObject → Exec BundleObject (Unit {0})
delete_key true without o = (ok tt, without)
delete_key false without o = (err key_error, o)

-- the deletion under the test for the default
unfoldable pub delete_if : Bool → Bool → BundleObject → Exec BundleObject (Unit {0})
unfolding delete_key
delete_if false has without o = (ok tt, o)
delete_if true has without o = delete_key has without o

-- the four deletions, one after the other
unfoldable pub delete_payload : Exec BundleObject (Unit {0})
unfolding delete_if
delete_payload o =
    delete_if (is_empty o.value.payload) o.has_payload (record o { has_payload = false }) o

unfoldable pub delete_node_type : Exec BundleObject (Unit {0})
unfolding delete_if
delete_node_type o =
    delete_if (o.value.node_type == 0) o.has_node_type (record o { has_node_type = false }) o

unfoldable pub delete_submitter : Exec BundleObject (Unit {0})
unfolding delete_if is_none
delete_submitter o =
    delete_if (is_none o.value.submitter) o.has_submitter (record o { has_submitter = false }) o

unfoldable pub delete_named_data : Exec BundleObject (Unit {0})
unfolding delete_if is_none
delete_named_data o =
    delete_if (is_none o.value.named_data) o.has_named_data (record o { has_named_data = false }) o

-- BundleData.dictify, which deletes from the object itself: what was deleted before a KeyError stays
-- deleted
unfoldable pub dictify_bundle : Exec BundleObject Fields
unfolding delete_payload delete_node_type delete_submitter delete_named_data own_dict
dictify_bundle o = after (delete_payload o) (λ _ o₁. after (delete_node_type o₁) (λ _ o₂.
    after (delete_submitter o₂)
      (λ _ o₃. after (delete_named_data o₃) (λ _ o₄. (ok (own_dict o₄), o₄)))))

unfoldable pub dictify_bundles : List BundleData → Result Items
unfolding fresh
dictify_bundles [] = ok end
dictify_bundles (b ∷ bs) = do
  d ← (dictify_bundle (fresh b)).0
  rest ← dictify_bundles bs
  ok (item (dict d) rest)

-- message.dictify(), for a message whose bundles were not dictified before
unfoldable pub dictify : Message → Result Fields
unfolding fresh
dictify (reply s e) = ok (
    field (codes "type") (int 1)
      (field (codes "success") (bool s) (field (codes "error") (text e) stop)))
dictify (register e) = ok (field (codes "type") (int 2) (field (codes "endpoint_id") (text e) stop))
dictify (fetch e n) = ok (
    field (codes "type") (int 3)
      (field (codes "endpoint_id") (text e) (field (codes "node_type") (int n) stop)))
dictify (fetch_reply s e bundles) = do
  items ← dictify_bundles bundles
  ok (
      field (codes "type") (int 4) (
        field (codes "success") (bool s)
          (field (codes "error") (text e) (field (codes "bundles") (list items) stop))))
dictify (create b) = do
  d ← (dictify_bundle (fresh b)).0
  ok (field (codes "type") (int 5) (field (codes "bundle") (dict d) stop))

unfoldable pub serialize : (Value → Bytes) → Message → Result Bytes
serialize packb message = do d ← dictify message; ok (packb (dict d))
