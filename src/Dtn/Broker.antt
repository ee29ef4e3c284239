-- ===== src/Dtn/Broker.antt =====
-- rec/dtn/broker.py: the broker. Job identifiers are texts; what msgpack packs is a parameter. The
-- writer lock, which a request takes twice, is reentrant, and makes each handler one step.
pub mod Discovered
use ma_sinafadavi_claude.Prelude.{
  ℕ, Bool, true, false, ◌&&◌, ◌||◌, Option, none, some, List, [], ◌∷◌, ◌++◌, Str, Bytes, codes, leb,
  ◌==◌, if◌then◌else◌, member, Result, ok, err, Exec, after, attempt, key_error,
}
use ma_sinafadavi_claude.Dtn.Message.{
  BundleData, plain_bundle, bundle_type_value, BundleType, broker_announce, broker_ack, job_list,
  Message, NodeType, node_type_value, broadcast_address,
}
use ma_sinafadavi_claude.Dtn.Message.Wire.{Value, list, dict, field, stop, texts}
use ma_sinafadavi_claude.Dtn.Node.{Node, new_node}
use ma_sinafadavi_claude.Dtn.Node.Rounds.{outside, send_bundle, bundle_round}

pub record Broker : Type 0 where
  pub node : Node
  pub completed_jobs : List Str
  pub queued_jobs : List Str
  -- the set of a node type's integer
  pub discovered_nodes : ℕ → List Str

unfoldable pub new_broker : Str → Broker
unfolding new_node
new_broker id = record {
  node = new_node id NodeType.broker (some id);
  completed_jobs = [];
  queued_jobs = [];
  discovered_nodes = λ _. [];
}

-- the keys of discovered_nodes
unfoldable pub is_node_type : ℕ → Bool
is_node_type t = leb 1 t && leb t 4

-- self.discovered_nodes[t].add(source)
unfoldable pub discover : ℕ → Str → Broker → Broker
discover t source b = record b {
  discovered_nodes = λ u.
      let old = b.discovered_nodes u in
      if (u == t) then (if member source old then old else source ∷ old) else old;
}

abbrev pub announcement : Broker → BundleData
announcement b = record (plain_bundle broker_announce b.node.node_id broadcast_address) {
  node_type = 1;
}

unfoldable pub handle_discovery : BundleData → Broker → Result (Option BundleData) × Broker
unfolding discover is_node_type
handle_discovery bundle b =
    if bundle.type == 2
    then (if is_node_type bundle.node_type
        then (
          ok (some (plain_bundle broker_ack b.node.node_id bundle.source)),
          discover bundle.node_type bundle.source b,
        )
        else (err key_error, b))
    else (ok none, b)

module _ (packb : Value → Bytes) where
  -- the answer lists the jobs that are done and those in the queue
  unfoldable pub handle_job_query : BundleData → Broker → BundleData
  unfolding texts
  handle_job_query bundle b = record (plain_bundle job_list b.node.node_id bundle.source) {
    submitter = bundle.submitter;
    payload = packb (
        dict (
          field (codes "completed") (list (texts b.completed_jobs))
            (field (codes "queued") (list (texts b.queued_jobs)) stop)));
  }

  module _ {W : Type 0} (send : Message → Exec W Message) where
    -- The reply, sent with every exception logged.
    unfoldable pub send_reply : Option BundleData → Exec (Broker × W) (Unit {0})
    unfolding send_bundle
    send_reply none s = (ok tt, s)
    send_reply (some reply) s = (ok tt, attempt (outside (send_bundle send reply) s))

    unfoldable pub handle_bundle : BundleData → Exec (Broker × W) (Unit {0})
    unfolding send_reply handle_job_query handle_discovery
    handle_bundle bundle s =
        if bundle.type == 13
        then send_reply (some (handle_job_query bundle s.0)) s
        else if leb 1 bundle.type && leb bundle.type 3
        then (let (r, b) = handle_discovery bundle s.0 in after (r, (b, s.1)) send_reply)
        else (ok tt, s)

    -- One round of _handle_bundle_messages.
    unfoldable pub round : Broker × W → Broker × W
    unfolding bundle_round handle_bundle
    round = bundle_round send (λ b. b.node) handle_bundle

    -- One round of _announce_yourself.
    unfoldable pub announce : Broker × W → Broker × W
    unfolding send_bundle
    announce s = attempt (outside (send_bundle send (announcement s.0)) s)
