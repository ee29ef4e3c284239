-- ===== src/Dtn/Node/Discovery.antt =====
-- How a node finds its broker.
use ma_sinafadavi_claude.Prelude.{
  false, ◌&&◌, none, some, List, [], ◌∷◌, ◌++◌, Str, str_eq, ◌==◌, ◌≡◌, ◌⊎◌, refl, arith,
  str_eq_iff,
}
use ma_sinafadavi_claude.Dtn.Message.{BundleData}
use ma_sinafadavi_claude.Dtn.Node.{Node, handle_discovery, broker_request_bundle}

-- the handling of bundles one after the other, with all that is answered
unfoldable pub discover_all : List BundleData → Node → List BundleData × Node
discover_all [] n = ([], n)
discover_all (b ∷ bs) n =
    let (out, n') = handle_discovery b n in
    let (outs, n'') = discover_all bs n' in (out ++ outs, n'')

-- A node that has a broker waits for none.
abbrev pub IsSettled : Node → Type 0
IsSettled n = (n.broker ≡ none) ⊎ (n.broker_pending ≡ none)

-- Discovery bundles keep a node from having both a broker and a pending one.
pub handle_discovery-IsSettled :
    (b : BundleData) (n : Node) → IsSettled n → IsSettled (handle_discovery b n).1
unfolding handle_discovery
handle_discovery-IsSettled b n h = ground arith

handle_discovery-associated :
    (b : BundleData) (n : Node) (e : Str)
    → n.broker ≡ some e
    → n.broker_pending ≡ none
    → handle_discovery b n ≡ ([], n)
unfolding handle_discovery
handle_discovery-associated b n e h k = ground arith

-- Once a node has its broker and waits for none, no sequence of bundles changes it or makes it
-- answer.
pub discover_all-associated :
    (bs : List BundleData) (n : Node) (e : Str)
    → n.broker ≡ some e
    → n.broker_pending ≡ none
    → discover_all bs n ≡ ([], n)
unfolding discover_all
discover_all-associated [] n e h k = refl
discover_all-associated (b ∷ bs) n e h k =
    rw (handle_discovery-associated b n e h k) (discover_all-associated bs n e h k)

-- no bundle is an acknowledgement by `e`
abbrev pub NoAckFrom : Str → List BundleData → Type 0
NoAckFrom e [] = Unit
NoAckFrom e (b ∷ bs) = (((b.type == 3) && str_eq e b.source) ≡ false) × NoAckFrom e bs

handle_discovery-pending :
    (b : BundleData) (n : Node) (e : Str)
    → n.broker_pending ≡ some e
    → ((b.type == 3) && str_eq e b.source) ≡ false
    → handle_discovery b n ≡ ([], n)
unfolding handle_discovery
handle_discovery-pending b n e h k = ground arith

-- A node that waits for a broker's acknowledgement stays as it is and answers no announcement, of
-- that broker or another, until the acknowledgement comes.
pub discover_all-pending :
    (bs : List BundleData) (n : Node) (e : Str)
    → n.broker_pending ≡ some e
    → NoAckFrom e bs
    → discover_all bs n ≡ ([], n)
unfolding discover_all
discover_all-pending [] n e h k = refl
discover_all-pending (b ∷ bs) n e h k =
    rw (handle_discovery-pending b n e h k.0) (discover_all-pending bs n e h k.1)

pub handle_ack-pending :
    (b : BundleData) (n : Node) (e : Str)
    → n.broker_pending ≡ some e
    → b.type ≡ 3
    → b.source ≡ e
    → handle_discovery b n ≡ ([], record n { broker = some e; broker_pending = none })
unfolding handle_discovery
handle_ack-pending b n e h k l = ground (arith, str_eq_iff e b.source)

pub announce_fresh :
    (b : BundleData) (n : Node)
    → n.broker_pending ≡ none
    → n.broker ≡ none
    → b.type ≡ 1
    → handle_discovery b n
      ≡ (broker_request_bundle n b.source ∷ [], record n { broker_pending = some b.source })
unfolding handle_discovery
announce_fresh b n h k l = ground arith

discover_all-pending_append :
    (bs cs : List BundleData) (n : Node) (e : Str)
    → n.broker_pending ≡ some e
    → NoAckFrom e bs
    → discover_all (bs ++ cs) n ≡ discover_all cs n
unfolding discover_all
discover_all-pending_append [] cs n e h k = refl
discover_all-pending_append (b ∷ bs) cs n e h k =
    rw (handle_discovery-pending b n e h k.0) (discover_all-pending_append bs cs n e h k.1)

-- An announcement, then bundles with no acknowledgement by the announcer, then its acknowledgement,
-- then any bundles: the node sends one request, to the announcer, and ends with it as its broker.
pub discovery_completes :
    (announce ack : BundleData) (between later : List BundleData) (n : Node)
    → n.broker_pending ≡ none
    → n.broker ≡ none
    → announce.type ≡ 1
    → ack.type ≡ 3
    → ack.source ≡ announce.source
    → NoAckFrom announce.source between
    → discover_all (announce ∷ (between ++ (ack ∷ later))) n ≡ (
      broker_request_bundle n announce.source ∷ [],
      record n { broker = some announce.source; broker_pending = none },
    )
unfolding discover_all
discovery_completes announce ack between later n p q t u s k = rw (
  announce_fresh announce n p q t,
  discover_all-pending_append between (ack ∷ later)
      (record n { broker_pending = some announce.source }) announce.source refl k,
  handle_ack-pending ack (record n { broker_pending = some announce.source }) announce.source refl u
      s,
  discover_all-associated later (record n { broker = some announce.source; broker_pending = none })
      announce.source refl refl,
)
