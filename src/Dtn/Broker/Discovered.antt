-- ===== src/Dtn/Broker/Discovered.antt =====
-- What the broker knows of the network.
use ma_sinafadavi_claude.Prelude.{
  ℕ, true, false, ◌&&◌, ◌||◌, none, some, List, [], ◌∷◌, Str, Bytes, ◌==◌, member, str_eq,
  str_eq_iff, str_eq_self, ok, err, Exec, key_error, ◌≡◌, refl, arith, for_each,
}
use ma_sinafadavi_claude.Dtn.Message.{
  BundleData, plain_bundle, broker_ack, Message, NodeType, node_type_value,
}
use ma_sinafadavi_claude.Dtn.Message.Wire.{Value}
use ma_sinafadavi_claude.Dtn.Node
use ma_sinafadavi_claude.Dtn.Node.{Node, handle_announce, handle_ack, broker_request_bundle}
use ma_sinafadavi_claude.Dtn.Node.Discovery.{announce_fresh, handle_ack-pending}
use ma_sinafadavi_claude.Dtn.Broker.{
  Broker, discover, is_node_type, handle_discovery, handle_bundle,
}

member-discover :
    (t u : ℕ) (source e : Str) (b : Broker)
    → member e ((discover t source b).discovered_nodes u)
      ≡ (member e (b.discovered_nodes u) || ((u == t) && str_eq source e))
unfolding discover member
member-discover t u source e b = ground (arith, str_eq_iff source e)

module _ (packb : Value → Bytes) {W : Type 0} (send : Message → Exec W Message) where
  -- A bundle makes a node known exactly if it is a request by that node with a type of node, and
  -- then under that type; every node that was known stays known. The broker's own node state does
  -- not change.
  pub member-handle_bundle :
      (bundle : BundleData) (s : Broker × W) (t : ℕ) (e : Str)
      → (member e ((handle_bundle packb send bundle s).1.0.discovered_nodes t) ≡ (
          member e (s.0.discovered_nodes t)
          || (((bundle.type == 2) && is_node_type bundle.node_type)
              && ((t == bundle.node_type) && str_eq bundle.source e))))
        × ((handle_bundle packb send bundle s).1.0.node ≡ s.0.node)
  unfolding handle_bundle
  member-handle_bundle bundle s t e =
      (ground (arith, member-discover bundle.node_type t bundle.source e s.0), ground arith)

  -- A request that names no type of node raises KeyError, and the bundles behind it in the same
  -- round are not handled.
  pub unknown_type_ends_round :
      (bundle : BundleData) (rest : List BundleData) (s : Broker × W)
      → bundle.type ≡ 2
      → is_node_type bundle.node_type ≡ false
      → for_each (handle_bundle packb send) (bundle ∷ rest) s ≡ (err key_error, s)
  unfolding for_each handle_bundle
  unknown_type_ends_round bundle rest s h k = ground arith

known_type : (t : NodeType) → is_node_type (node_type_value t) ≡ true
unfolding is_node_type
known_type NodeType.broker = refl
known_type NodeType.executor = refl
known_type _ = refl

ack_known :
    (n : Node) (b : Broker) (source : Str)
    → is_node_type (node_type_value n.node_type) ≡ true
    → handle_discovery (broker_request_bundle n source) b ≡ (
      ok (some (plain_bundle broker_ack b.node.node_id n.node_id)),
      discover (node_type_value n.node_type) n.node_id b,
    )
unfolding handle_discovery broker_request_bundle
ack_known n b source h = rw h

-- The handshake: a node with no broker answers the broker's announcement by a request; the broker
-- then knows it under its type and answers by an acknowledgement; and that makes the broker the
-- node's broker.
pub handshake :
    (n : Node) (b : Broker) (announce : BundleData)
    → n.broker_pending ≡ none
    → n.broker ≡ none
    → announce.type ≡ 1
    → announce.source ≡ b.node.node_id
    → (request ack : BundleData) × (n₁ : Node) × (b₁ : Broker) × (Node.handle_discovery announce n
        ≡ (request ∷ [], n₁))
      × (request.destination ≡ b.node.node_id)
      × (handle_discovery request b ≡ (ok (some ack), b₁))
      × (ack.destination ≡ n.node_id)
      × (member n.node_id (b₁.discovered_nodes (node_type_value n.node_type)) ≡ true)
      × (Node.handle_discovery ack n₁
          ≡ ([], record n { broker = some b.node.node_id; broker_pending = none }))
unfolding broker_request_bundle
handshake n b announce p q t s = (
  broker_request_bundle n announce.source,
  plain_bundle broker_ack b.node.node_id n.node_id,
  record n { broker_pending = some announce.source },
  discover (node_type_value n.node_type) n.node_id b,
  announce_fresh announce n p q t,
  s,
  ack_known n b announce.source (known_type n.node_type),
  refl,
  ground (
    arith,
    member-discover (node_type_value n.node_type) (node_type_value n.node_type) n.node_id n.node_id
        b,
    str_eq_self n.node_id,
  ),
  rw s (
      handle_ack-pending (plain_bundle broker_ack b.node.node_id n.node_id)
        (record n { broker_pending = some b.node.node_id }) b.node.node_id refl refl refl),
)
