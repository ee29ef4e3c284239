-- ===== src/Dtn/Datastore.antt =====
-- rec/dtn/datastore.py: the datastore, which answers PUT and GET bundles from its storage.
pub mod Data
use ma_sinafadavi_claude.Prelude.{
  ℕ, Bool, true, false, ◌&&◌, ◌||◌, Option, none, some, List, [], ◌∷◌, ◌++◌, Str, Bytes, codes, leb,
  ◌==◌, if◌then◌else◌, Result, ok, err, Error, name_taken, Exec, after, attempt,
}
use ma_sinafadavi_claude.Dtn.Message.{
  BundleData, plain_bundle, bundle_type_value, BundleType, ndata_put, ndata_get, Message, NamedData,
  one, many, NodeType,
}
use ma_sinafadavi_claude.Dtn.Node.{Node, new_node, handle_discovery}
use ma_sinafadavi_claude.Dtn.Node.Rounds.{outside, send_answers, bundle_round}
use ma_sinafadavi_claude.Dtn.Storage.{Storage, store_data, load_data, empty_storage}

pub record Datastore : Type 0 where
  pub node : Node
  pub storage : Storage

unfoldable pub new_datastore : Str → Datastore
unfolding new_node
new_datastore id = record { node = new_node id NodeType.datastore none; storage = empty_storage }

-- the names of a bundle, as a list; no names are no work
unfoldable pub names_of : Option NamedData → List Str
names_of none = []
names_of (some (one n)) = n ∷ []
names_of (some (many ns)) = ns

-- str(NameTakenError(name))
abbrev pub taken_text : Str → Str
taken_text name = codes "name " ++ (name ++ codes " already taken")

unfoldable pub put_response : Str → Str → Str → BundleData
put_response id source name = record (plain_bundle ndata_put id source) {
  named_data = some (one name);
}

-- what the exception of store_data, if any, makes of the response
unfoldable pub mark_failed : Result (Unit {0}) → BundleData → BundleData
mark_failed (err (name_taken n)) response = record response {
  success = false;
  error = taken_text n;
}
mark_failed _ response = response

unfoldable pub get_response : Str → Str → Str × Bytes → BundleData
get_response id source loaded = record (plain_bundle ndata_get id source) {
  payload = loaded.1;
  named_data = some (one loaded.0);
}

unfoldable pub get_responses : Str → Str → List (Str × Bytes) → List BundleData
unfolding get_response
get_responses id source [] = []
get_responses id source (l ∷ ls) = get_response id source l ∷ get_responses id source ls

-- case NDATA_GET, the loop over the names
unfoldable pub get_all : Str → Str → List Str → Storage → List BundleData × Storage
unfolding get_responses
get_all id source [] s = ([], s)
get_all id source (name ∷ names) s =
    let (loaded, s') = load_data name s in
    let (rest, s'') = get_all id source names s' in (get_responses id source loaded ++ rest, s'')

module _ (sha1 : Bytes → Str) where
  -- case NDATA_PUT, the loop over the names
  unfoldable pub put_all : Str → Str → Bytes → List Str → Storage → List BundleData × Storage
  unfolding put_response mark_failed
  put_all id source payload [] s = ([], s)
  put_all id source payload (name ∷ names) s =
      let (r, s') = store_data sha1 name payload s in
      let (rest, s'') = put_all id source payload names s' in
      (mark_failed r (put_response id source name) ∷ rest, s'')

  -- async def _handle_data
  unfoldable pub handle_data : BundleData → Datastore → List BundleData × Datastore
  unfolding put_all get_all names_of
  handle_data bundle d =
      if bundle.type == 21
      then (let (out, s) =
            put_all d.node.node_id bundle.source bundle.payload (names_of bundle.named_data)
              d.storage in
          (out, record d { storage = s }))
      else if bundle.type == 22
      then (let (out, s) =
            get_all d.node.node_id bundle.source (names_of bundle.named_data) d.storage in
          (out, record d { storage = s }))
      else ([], d)

  -- What is to be sent for a bundle; the two tests exclude one another.
  unfoldable pub answers : BundleData → Datastore → List BundleData × Datastore
  unfolding handle_data
  answers bundle d =
      if leb 1 bundle.type && leb bundle.type 3
      then (let (out, n) = handle_discovery bundle d.node in (out, record d { node = n }))
      else if leb 21 bundle.type && leb bundle.type 23
      then handle_data bundle d
      else ([], d)

  module _ {W : Type 0} (send : Message → Exec W Message) where
    unfoldable pub handle_bundle : BundleData → Exec (Datastore × W) (Unit {0})
    unfolding answers send_answers
    handle_bundle bundle s =
        let (to_send, d) = answers bundle s.0 in send_answers send to_send (d, s.1)

    -- One round of _handle_bundles.
    unfoldable pub round : Datastore × W → Datastore × W
    unfolding bundle_round handle_bundle
    round = bundle_round send (λ d. d.node) handle_bundle
