-- ===== src/Tests/Nodes.antt =====
-- Runs of rec/dtn/node.py and rec/dtn/broker.py.
use ma_sinafadavi_claude.Prelude.{
  ℕ, true, none, some, [], ◌∷◌, ◌++◌, Str, Bytes, codes, ok, ◌≡◌, refl, member, Exec,
}
use ma_sinafadavi_claude.Dtn.Message.{
  BundleData, plain_bundle, broker_announce, broker_request, broker_ack, Message, reply, NodeType,
  node_type_value,
}
use ma_sinafadavi_claude.Dtn.Message.Wire.{Value}
use ma_sinafadavi_claude.Dtn.Node
use ma_sinafadavi_claude.Dtn.Node.{Node, new_node, broker_request_bundle}
use ma_sinafadavi_claude.Dtn.Node.Discovery.{
  discover_all, NoAckFrom, discover_all-pending, discovery_completes,
}
use ma_sinafadavi_claude.Dtn.Broker.{Broker, handle_discovery}
use ma_sinafadavi_claude.Dtn.Broker.Discovered.{handshake}

abbrev client_id : Str
client_id = codes "dtn://client/rec"

abbrev broker_id : Str
broker_id = codes "dtn://broker/rec"

abbrev other_id : Str
other_id = codes "dtn://other/rec"

abbrev alone : Node
alone = record {
  node_id = client_id;
  node_type = NodeType.client;
  broker_pending = none;
  broker = none;
}

abbrev waiting : Node
waiting = record alone { broker_pending = some broker_id }

abbrev announced : BundleData
announced = plain_bundle broker_announce broker_id client_id

abbrev other_announced : BundleData
other_announced = plain_bundle broker_announce other_id client_id

abbrev acknowledged : BundleData
acknowledged = plain_bundle broker_ack broker_id client_id

no_ack : NoAckFrom broker_id (other_announced ∷ announced ∷ [])
no_ack = (refl, (refl, tt))

discovery_completes_example :
    discover_all
      (announced ∷ ((other_announced ∷ announced ∷ []) ++ (acknowledged ∷ other_announced ∷ [])))
      alone
    ≡ (
      broker_request_bundle alone broker_id ∷ [],
      record alone { broker = some broker_id; broker_pending = none },
    )
discovery_completes_example =
    discovery_completes announced acknowledged (other_announced ∷ announced ∷ [])
      (other_announced ∷ []) alone refl refl refl refl refl no_ack

discover_all-pending_example :
    discover_all (other_announced ∷ announced ∷ []) waiting ≡ ([], waiting)
discover_all-pending_example =
    discover_all-pending (other_announced ∷ announced ∷ []) waiting broker_id refl no_ack

abbrev center : Broker
center = record {
  node = record alone { node_id = broker_id; node_type = NodeType.broker; broker = some broker_id };
  completed_jobs = [];
  queued_jobs = [];
  discovered_nodes = λ _. [];
}

handshake_example :
    (request ack : BundleData) × (n₁ : Node) × (b₁ : Broker) × (Node.handle_discovery announced
        alone
      ≡ (request ∷ [], n₁))
    × (request.destination ≡ broker_id)
    × (handle_discovery request center ≡ (ok (some ack), b₁))
    × (ack.destination ≡ client_id)
    × (member client_id (b₁.discovered_nodes (node_type_value NodeType.client)) ≡ true)
    × (Node.handle_discovery ack n₁
        ≡ ([], record alone { broker = some broker_id; broker_pending = none }))
handshake_example = handshake alone center announced refl refl refl refl

abbrev packb : Value → Bytes
packb v = []

-- a dtnd that takes every message; the world counts nothing
abbrev send : Message → Exec ℕ Message
send m w = (ok (reply true []), w)

abbrev request : BundleData
request = record (plain_bundle broker_request client_id broker_id) { node_type = 4 }
