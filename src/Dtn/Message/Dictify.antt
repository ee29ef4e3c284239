-- ===== src/Dtn/Message/Dictify.antt =====
-- What dictify makes of a bundle, the first time and the second.
use ma_sinafadavi_claude.Prelude.{
  Bool, true, false, ◌||◌, some, List, Str, not, str_eq, member, ◌==◌, if◌then◌else◌, is_empty, ok,
  err, key_error, ◌≡◌, refl, arith, ◌∙◌, ap,
}
use ma_sinafadavi_claude.Dtn.Message.{BundleData}
use ma_sinafadavi_claude.Dtn.Message.Wire.{
  Value, Fields, field_if, BundleObject, fresh, delete_key, is_none, own_dict, dictify_bundle,
  delete_named_data, delete_payload, delete_submitter, delete_node_type, delete_if,
}
use ma_sinafadavi_claude.Dtn.Message.Reader.{get, has_only}

-- the object that the first call leaves: it lacks the attributes that have their default
unfoldable pub trimmed : BundleData → BundleObject
trimmed b = record {
  value = b;
  has_payload = not (is_empty b.payload);
  has_node_type = not (b.node_type == 0);
  has_submitter = not (is_none b.submitter);
  has_named_data = not (is_none b.named_data);
}

-- a deletion under its test, from an object that has the key
delete_if-there :
    (c : Bool) (without o : BundleObject)
    → delete_if c true without o ≡ (ok tt, if c then without else o)
unfolding delete_if delete_key
delete_if-there true without o = refl
delete_if-there false without o = refl

pub dictify_bundle-fresh :
    (b : BundleData) → dictify_bundle (fresh b) ≡ (ok (own_dict (trimmed b)), trimmed b)
unfolding dictify_bundle fresh trimmed delete_payload delete_node_type delete_submitter
    delete_named_data delete_if delete_key
dictify_bundle-fresh b = ground arith

dictify_bundle-trimmed :
    (b : BundleData)
    → (dictify_bundle (trimmed b)).0 ≡ (
        if is_empty b.payload
          || ((b.node_type == 0) || (is_none b.submitter || is_none b.named_data))
        then err key_error
        else ok (own_dict (trimmed b)))
unfolding dictify_bundle trimmed delete_payload delete_node_type delete_submitter delete_named_data
    delete_if delete_key
dictify_bundle-trimmed b = ground arith

-- A new bundle is turned into a dict without an exception. The same object gives the same dict again if
-- none of its payload, node type, submitter and named data is at its default; otherwise the second
-- call raises KeyError.
pub dictify_bundle_twice :
    (b : BundleData)
    → (d : Fields) × ((dictify_bundle (fresh b)).0 ≡ ok d)
      × ((dictify_bundle (dictify_bundle (fresh b)).1).0 ≡ (
          if is_empty b.payload
            || ((b.node_type == 0) || (is_none b.submitter || is_none b.named_data))
          then err key_error
          else ok d))
dictify_bundle_twice b = (
  own_dict (trimmed b),
  ap (λ r. r.0) (dictify_bundle-fresh b),
  ap (λ r. (dictify_bundle r.1).0) (dictify_bundle-fresh b) ∙ dictify_bundle-trimmed b,
)

pub get-field_if :
    (k j : Str) (h : Bool) (v : Value) (rest : Fields)
    → get k (field_if h j v rest)
      ≡ (if str_eq j k then (if h then some v else get k rest) else get k rest)
unfolding get
get-field_if k j true v rest = refl
get-field_if k j false v rest = ground arith

pub has_only-field_if :
    (ks : List Str) (j : Str) (h : Bool) (v : Value) (rest : Fields)
    → member j ks ≡ true
    → has_only ks (field_if h j v rest) ≡ has_only ks rest
unfolding has_only
has_only-field_if ks j true v rest m = rw m
has_only-field_if ks j false v rest m = refl
