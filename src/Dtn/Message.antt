-- ===== src/Dtn/Message.antt =====
-- rec/dtn/messages.py: the messages between a node and its dtnd, and the bundles that they carry.
-- An EID is the text that it is; enumerations are their integers, as on the wire.
pub mod Wire
pub mod Reader
pub mod Dictify
pub mod RoundTrip
use ma_sinafadavi_claude.Prelude.{
  ℕ, Bool, true, false, Option, none, some, List, [], Str, Bytes, codes,
}

pub data NodeType : Type 0 where
  broker executor datastore client : NodeType

-- the integers of class NodeType(IntEnum)
abbrev pub node_type_value : NodeType → ℕ
node_type_value broker = 1
node_type_value executor = 2
node_type_value datastore = 3
node_type_value client = 4

pub data BundleType : Type 0 where
  broker_announce broker_request broker_ack : BundleType
  job_submit job_result job_query job_list : BundleType
  ndata_put ndata_get ndata_del : BundleType

-- the integers of class BundleType(IntEnum)
abbrev pub bundle_type_value : BundleType → ℕ
bundle_type_value broker_announce = 1
bundle_type_value broker_request = 2
bundle_type_value broker_ack = 3
bundle_type_value job_submit = 11
bundle_type_value job_result = 12
bundle_type_value job_query = 13
bundle_type_value job_list = 14
bundle_type_value ndata_put = 21
bundle_type_value ndata_get = 22
bundle_type_value ndata_del = 23

-- str | list[str]
pub data NamedData : Type 0 where
  one : Str → NamedData
  many : List Str → NamedData

pub record BundleData : Type 0 where
  pub type : ℕ
  pub source : Str
  pub destination : Str
  pub payload : Bytes
  pub success : Bool
  pub error : Str
  pub node_type : ℕ
  pub submitter : Option Str
  pub named_data : Option NamedData

-- A bundle with the default of every field that has one.
abbrev pub plain_bundle : BundleType → Str → Str → BundleData
plain_bundle t source destination = record {
  type = bundle_type_value t;
  source = source;
  destination = destination;
  payload = [];
  success = true;
  error = [];
  node_type = 0;
  submitter = none;
  named_data = none;
}

-- The constructor stands for the class and for the `type` field, which every caller sets to it.
pub data Message : Type 0 where
  reply : (success : Bool) (error : Str) → Message
  register : (endpoint_id : Str) → Message
  fetch : (endpoint_id : Str) (node_type : ℕ) → Message
  fetch_reply : (success : Bool) (error : Str) (bundles : List BundleData) → Message
  create : (bundle : BundleData) → Message

-- the integers of class MessageType(IntEnum)
abbrev pub message_type_value : Message → ℕ
message_type_value (reply s e) = 1
message_type_value (register e) = 2
message_type_value (fetch e n) = 3
message_type_value (fetch_reply s e b) = 4
message_type_value (create b) = 5

abbrev pub broadcast_address : Str
broadcast_address = codes "dtn://rec.all/~"

abbrev pub datastore_multicast_address : Str
datastore_multicast_address = codes "dtn://rec.store/~"
