-- ===== src/Dtn/Message/Reader.antt =====
-- How `deserialize` of rec/dtn/messages.py makes messages and bundles of plain values. The unpacker
-- is a parameter. Where Python would store a field of another type than the class declares,
-- unchecked, the model raises TypeError.
use ma_sinafadavi_claude.Prelude.{
  ℕ, Bool, true, ◌&&◌, Option, none, some, List, [], ◌∷◌, Str, Bytes, codes, str_eq, member, ◌==◌,
  if◌then◌else◌, Result, ok, err, ◌>>=◌, type_error, key_error, attribute_error, invalid_message,
}
use ma_sinafadavi_claude.Dtn.Eid.{normalize}
use ma_sinafadavi_claude.Dtn.Message.{
  BundleData, NamedData, one, many, Message, reply, register, fetch, fetch_reply, create,
}
use ma_sinafadavi_claude.Dtn.Message.Wire.{
  Value, Items, Fields, nil, bool, int, bin, text, list, dict, end, item, stop, field,
}

-- data_dict.get(key)
unfoldable pub get : Str → Fields → Option Value
get k stop = none
get k (field j v rest) = if str_eq j k then some v else get k rest

-- Every key names a field of the class.
unfoldable pub has_only : List Str → Fields → Bool
has_only ks stop = true
has_only ks (field j v rest) = member j ks && has_only ks rest

-- Arguments of a class, by their types: required, and with a default.
unfoldable pub int_of : Option Value → Result ℕ
int_of (some (int n)) = ok n
int_of _ = err type_error

unfoldable pub text_of : Option Value → Result Str
text_of (some (text s)) = ok s
text_of _ = err type_error

unfoldable pub bool_of : Option Value → Result Bool
bool_of (some (bool b)) = ok b
bool_of _ = err type_error

unfoldable pub int_or : ℕ → Option Value → Result ℕ
unfolding int_of
int_or d none = ok d
int_or d (some v) = int_of (some v)

unfoldable pub text_or : Str → Option Value → Result Str
unfolding text_of
text_or d none = ok d
text_or d (some v) = text_of (some v)

unfoldable pub bool_or : Bool → Option Value → Result Bool
unfolding bool_of
bool_or d none = ok d
bool_or d (some v) = bool_of (some v)

unfoldable pub bytes_or_empty : Option Value → Result Bytes
bytes_or_empty none = ok []
bytes_or_empty (some (bin b)) = ok b
bytes_or_empty (some _) = err type_error

unfoldable pub texts_of : Items → Result (List Str)
texts_of end = ok []
texts_of (item (text s) rest) = do ss ← texts_of rest; ok (s ∷ ss)
texts_of (item _ rest) = err type_error

unfoldable pub named_of : Option Value → Result (Option NamedData)
unfolding texts_of
named_of none = ok none
named_of (some nil) = ok none
named_of (some (text s)) = ok (some (one s))
named_of (some (list xs)) = do ss ← texts_of xs; ok (some (many ss))
named_of (some _) = err type_error

abbrev pub bundle_keys : List Str
bundle_keys =
    codes "type"
    ∷ codes "source"
    ∷ codes "destination"
    ∷ codes "payload"
    ∷ codes "success"
    ∷ codes "error"
    ∷ codes "node_type"
    ∷ codes "submitter"
    ∷ codes "named_data"
    ∷ []

module _ (to_ascii : Str → Str) where
  unfoldable pub eid_of : Option Value → Result Str
  eid_of (some (text s)) = normalize to_ascii s
  eid_of none = err type_error
  eid_of (some _) = err attribute_error

  unfoldable pub submitter_of : Option Value → Result (Option Str)
  unfolding eid_of
  submitter_of none = ok none
  submitter_of (some nil) = ok none
  submitter_of (some v) = do e ← eid_of (some v); ok (some e)

  -- BundleData(**fields)
  unfoldable pub make_bundle : Fields → Result BundleData
  unfolding int_of bytes_or_empty bool_or text_or int_or submitter_of named_of
  make_bundle fs =
      if has_only bundle_keys fs
      then (do
        type ← int_of (get (codes "type") fs)
        source ← eid_of (get (codes "source") fs)
        destination ← eid_of (get (codes "destination") fs)
        payload ← bytes_or_empty (get (codes "payload") fs)
        success ← bool_or true (get (codes "success") fs)
        error ← text_or [] (get (codes "error") fs)
        node_type ← int_or 0 (get (codes "node_type") fs)
        submitter ← submitter_of (get (codes "submitter") fs)
        named ← named_of (get (codes "named_data") fs)
        ok (record {
          type = type;
          source = source;
          destination = destination;
          payload = payload;
          success = success;
          error = error;
          node_type = node_type;
          submitter = submitter;
          named_data = named;
        }))
      else err type_error

  -- FetchReply.__post_init__ makes a bundle of each dict, and drops what is none.
  unfoldable pub make_bundles : Items → Result (List BundleData)
  make_bundles end = ok []
  make_bundles (item (dict fs) rest) = do b ← make_bundle fs; bs ← make_bundles rest; ok (b ∷ bs)
  make_bundles (item _ rest) = make_bundles rest

  unfoldable pub bundles_of : Option Value → Result (List BundleData)
  bundles_of (some (list xs)) = make_bundles xs
  bundles_of _ = err type_error

  unfoldable pub bundle_of : Option Value → Result BundleData
  bundle_of (some (dict fs)) = make_bundle fs
  bundle_of _ = err type_error

  -- MESSAGE_CONSTRUCTORS[code](**fields)
  unfoldable pub make_message : ℕ → Fields → Result Message
  unfolding bool_of text_of int_of bundles_of bundle_of
  make_message code fs =
      if code == 1
      then (if has_only (codes "type" ∷ codes "success" ∷ codes "error" ∷ []) fs
          then (do
            s ← bool_of (get (codes "success") fs)
            e ← text_of (get (codes "error") fs)
            ok (reply s e))
          else err type_error)
      else if code == 2
      then (if has_only (codes "type" ∷ codes "endpoint_id" ∷ []) fs
          then (do e ← text_of (get (codes "endpoint_id") fs); ok (register e))
          else err type_error)
      else if code == 3
      then (if has_only (codes "type" ∷ codes "endpoint_id" ∷ codes "node_type" ∷ []) fs
          then (do
            e ← text_of (get (codes "endpoint_id") fs)
            n ← int_of (get (codes "node_type") fs)
            ok (fetch e n))
          else err type_error)
      else if code == 4
      then (if has_only (codes "type" ∷ codes "success" ∷ codes "error" ∷ codes "bundles" ∷ []) fs
          then (do
            s ← bool_of (get (codes "success") fs)
            e ← text_of (get (codes "error") fs)
            bs ← bundles_of (get (codes "bundles") fs)
            ok (fetch_reply s e bs))
          else err type_error)
      else if code == 5
      then (if has_only (codes "type" ∷ codes "bundle" ∷ []) fs
          then (do b ← bundle_of (get (codes "bundle") fs); ok (create b))
          else err type_error)
      else err invalid_message

  -- data_dict["type"], and the look-up of the class; True and False are 1 and 0 as keys.
  unfoldable pub make_typed : Option Value → Fields → Result Message
  unfolding make_message
  make_typed none fs = err key_error
  make_typed (some (int n)) fs = make_message n fs
  make_typed (some (bool b)) fs = make_message (if b then 1 else 0) fs
  make_typed (some (list xs)) fs = err type_error
  make_typed (some (dict xs)) fs = err type_error
  make_typed (some _) fs = err invalid_message

  unfoldable pub of_value : Value → Result Message
  unfolding make_typed
  of_value (dict fs) = make_typed (get (codes "type") fs) fs
  of_value _ = err type_error

  unfoldable pub deserialize : (Bytes → Result Value) → Bytes → Result Message
  unfolding of_value
  deserialize unpackb bytes = do v ← unpackb bytes; of_value v
