-- ===== src/Dtn/Node.antt =====
-- rec/dtn/node.py: the state that every node has, and its part in broker discovery. The lock makes
-- each branch one step. The sockets are in Node/Frame.antt.
pub mod Frame
pub mod Rounds
pub mod Discovery
use ma_sinafadavi_claude.Prelude.{
  ℕ, Bool, true, false, ◌&&◌, Option, none, some, List, [], ◌∷◌, Str, str_eq, ◌==◌, if◌then◌else◌,
}
use ma_sinafadavi_claude.Dtn.Message.{
  NodeType, node_type_value, BundleData, plain_bundle, bundle_type_value, BundleType,
  broker_announce, broker_request, broker_ack,
}

pub record Node : Type 0 where
  pub node_id : Str
  pub node_type : NodeType
  pub broker_pending : Option Str
  pub broker : Option Str

-- The node that a constructor makes from an EID; a broker is its own broker.
unfoldable pub new_node : Str → NodeType → Option Str → Node
new_node id t broker = record {
  node_id = id;
  node_type = t;
  broker_pending = none;
  broker = broker;
}

unfoldable pub broker_request_bundle : Node → Str → BundleData
broker_request_bundle n source = record (plain_bundle broker_request n.node_id source) {
  node_type = node_type_value n.node_type;
}

-- case BROKER_ANNOUNCE: only a node with neither broker nor pending broker answers.
unfoldable pub handle_announce :
    Option Str → Option Str → BundleData → Node → List BundleData × Node
unfolding broker_request_bundle
handle_announce none none bundle n =
    (broker_request_bundle n bundle.source ∷ [], record n { broker_pending = some bundle.source })
handle_announce _ _ bundle n = ([], n)

-- case BROKER_ACK: only the pending broker's counts.
unfoldable pub handle_ack : Option Str → BundleData → Node → List BundleData × Node
handle_ack none bundle n = ([], n)
handle_ack (some b) bundle n =
    if str_eq b bundle.source
    then ([], record n { broker = some bundle.source; broker_pending = none })
    else ([], n)

unfoldable pub handle_discovery : BundleData → Node → List BundleData × Node
unfolding handle_announce handle_ack
handle_discovery bundle n =
    if bundle.type == 1
    then handle_announce n.broker_pending n.broker bundle n
    else if bundle.type == 3
    then handle_ack n.broker_pending bundle n
    else ([], n)
