-- ===== src/Tests/Stores.antt =====
-- Runs of rec/dtn/storage.py and rec/dtn/datastore.py. The hash of a content is its own text.
use ma_sinafadavi_claude.Prelude.{
  ℕ, true, false, none, some, [], ◌∷◌, Str, Bytes, codes, ok, err, ◌≡◌, refl, name_taken,
  if◌then◌else◌, starts_with, str_eq, member, lookup, Exec, arith, str_eq_iff,
}
use ma_sinafadavi_claude.Dtn.Message.{
  BundleData, plain_bundle, ndata_put, ndata_get, Message, NodeType, one, fetch_reply,
}
use ma_sinafadavi_claude.Dtn.Node.{new_node}
use ma_sinafadavi_claude.Dtn.Storage.{Storage, store_data, load_data, find_missing}
use ma_sinafadavi_claude.Dtn.Storage.Unique.{find_name, IsValid}
use ma_sinafadavi_claude.Dtn.Storage.Views.{view, IsIntact, store_data-view}
use ma_sinafadavi_claude.Dtn.Storage.Loads.{load_data-view}
use ma_sinafadavi_claude.Dtn.Storage.Lost.{AreNotNames, lost_name_stays_taken}
use ma_sinafadavi_claude.Dtn.Datastore.{Datastore, put_response, handle_data}
use ma_sinafadavi_claude.Dtn.Datastore.Data.{payload_for, put_then_get}
use ma_sinafadavi_claude.Tests.Eids.{node1}

abbrev sha1 : Bytes → Str
sha1 c = c

abbrev a : Str
a = codes "data/a"

abbrev b : Str
b = codes "data/b"

-- one name with its content
abbrev pub one_name : Storage
one_name = record {
  db = record { name = a; filename = 1 ∷ [] } ∷ [];
  blobs = (1 ∷ [], 1 ∷ []) ∷ [];
}

one_name_hashed : (f : Str) (c : Bytes) → lookup f one_name.blobs ≡ some c → sha1 c ≡ f
unfolding lookup
one_name_hashed f c h = ground (arith, str_eq_iff (1 ∷ []) f)

one_name-IsValid : IsValid sha1 one_name
unfolding find_name
one_name-IsValid = record { unique = (refl, tt); hashed = one_name_hashed }

one_name-IsIntact : IsIntact one_name
unfolding find_name lookup
one_name-IsIntact n f h = (1 ∷ [], ground (arith, str_eq_iff (1 ∷ []) f))

pub a_taken : find_name a one_name.db ≡ some (1 ∷ [])
unfolding find_name str_eq
a_taken = refl

b_free : find_name b one_name.db ≡ none
unfolding find_name str_eq
b_free = refl

-- the same name when its blob is gone
abbrev lost : Storage
lost = record one_name { blobs = [] }

store_data-view_example :
    ((store_data sha1 b (2 ∷ []) one_name).0 ≡ ok tt)
    × ((m : Str)
        → view (store_data sha1 b (2 ∷ []) one_name).1 m
          ≡ (if str_eq b m then some (2 ∷ []) else view one_name m))
store_data-view_example =
    store_data-view sha1 b (2 ∷ []) one_name one_name-IsValid one_name-IsIntact (λ d h. h) b_free

load_data-view_example :
    lookup a (load_data (codes "data") one_name).0
    ≡ (if starts_with a (codes "data") then view one_name a else none)
load_data-view_example = load_data-view (codes "data") a one_name one_name-IsValid.unique

lost-AreNotNames : AreNotNames lost.db lost.db
unfolding find_name str_eq
lost-AreNotNames = (refl, tt)

lost_name_stays_taken_example :
    (view lost a ≡ none)
    × ((load_data a lost).1 ≡ lost)
    × (store_data sha1 a (1 ∷ []) lost ≡ (err (name_taken a), lost))
    × (member a (find_missing (a ∷ []) lost) ≡ false)
lost_name_stays_taken_example =
    lost_name_stays_taken sha1 a (1 ∷ []) (1 ∷ []) lost lost-AreNotNames a_taken
      (unfold lookup in refl)

abbrev store1 : Datastore
store1 = record { node = new_node node1 NodeType.datastore none; storage = one_name }

abbrev put_b : BundleData
put_b = record (plain_bundle ndata_put node1 node1) { payload = 2 ∷ []; named_data = some (one b) }

abbrev get_data : BundleData
get_data = record (plain_bundle ndata_get node1 node1) { named_data = some (one (codes "data")) }

-- a dtnd that has one bundle for whoever fetches
abbrev send : Message → Exec ℕ Message
send m w = (ok (fetch_reply true [] (put_b ∷ [])), w)

put_then_get_example :
    ((handle_data sha1 put_b store1).0 ≡ put_response store1.node.node_id node1 b ∷ [])
    × (payload_for b (handle_data sha1 get_data (handle_data sha1 put_b store1).1).0 ≡ (
        if starts_with b (codes "data")
        then (if str_eq b b then some (2 ∷ []) else view store1.storage b)
        else none))
put_then_get_example =
    put_then_get sha1 put_b get_data store1 b (codes "data") b refl refl refl refl one_name-IsValid
      one_name-IsIntact (λ c h. h) b_free
