-- ===== src/Dtn/Client.antt =====
-- rec/dtn/client.py: the search for a broker, and the requests to brokers and datastores with the
-- wait for their replies. The loops run on fuel, and none is that it ran out. What is printed and
-- logged is left out; the context file is the dict of its one entry. `sleep` is what happens in the
-- world while the client sleeps.
pub mod Replies
use ma_sinafadavi_claude.Prelude.{
  List, ◌∷◌, ◌&&◌, ◌==◌, if◌then◌else◌, ℕ, zero, suc, Bool, Option, none, some, [], after, Bytes,
  for_each, Exec, leb, attempt, Str, Result, ok, err,
}
use ma_sinafadavi_claude.Dtn.Message.{
  BundleData, BundleType, Message, plain_bundle, bundle_type_value, broker_announce, broker_ack,
  job_query, job_list, ndata_get, ndata_put, one, create,
}
use ma_sinafadavi_claude.Dtn.Node.{Node, handle_discovery}
use ma_sinafadavi_claude.Dtn.Node.Rounds.{outside, get_new_bundles, send_bundle}

-- BROKER_ANNOUNCE <= type <= BROKER_ACK
unfoldable pub is_discovery : BundleData → Bool
is_discovery b =
    leb (bundle_type_value broker_announce) b.type && leb b.type (bundle_type_value broker_ack)

-- the first bundle of a type
unfoldable pub first_of : BundleType → List BundleData → Option BundleData
first_of t [] = none
first_of t (b ∷ bs) =
    let rest = first_of t bs in if b.type == bundle_type_value t then some b else rest

module _ {W : Type 0} (send : Message → Exec W Message) (sleep : W → W) where
  -- the reply to a discovery bundle: the first, if there is one, with every exception logged
  unfoldable pub send_first : List BundleData → Node × W → Node × W
  unfolding send_bundle
  send_first [] s = s
  send_first (b ∷ bs) s = attempt (outside (send_bundle send b) s)

  unfoldable pub handle_bundle : BundleData → Exec (Node × W) (Unit {0})
  unfolding is_discovery handle_discovery send_first
  handle_bundle b (n, w) =
      let (responses, n') = handle_discovery b n in
      if is_discovery b then (ok tt, send_first responses (n', w)) else (ok tt, (n, w))

  -- one round of the loop of _find_broker
  unfoldable pub find_round : Exec (Node × W) (Unit {0})
  unfolding get_new_bundles handle_bundle for_each
  find_round (n, w) =
      after (outside (get_new_bundles send n) (n, sleep w))
        (λ bundles. for_each handle_bundle bundles)

  -- def _find_broker: the broker that is written to the context file
  unfoldable pub find_broker : ℕ → Node × W → Option (Result Str × (Node × W))
  unfolding find_round
  find_broker zero s = none
  find_broker (suc fuel) s =
      let (r, s') = find_round s in
      let rest = find_broker fuel s' in
      elim s.0.broker [
        | some b ↦ some (ok b, s)
        | none ↦ (elim r [ err e ↦ some (err e, s') | ok _ ↦ rest ])
      ]

  -- what a batch gives, or else the next rounds
  unfoldable pub unless_first :
      BundleType
      → Result (List BundleData) × W
      → (W → Option (Result BundleData × W))
      → Option (Result BundleData × W)
  unfolding first_of
  unless_first t (err e, w) rest = some (err e, w)
  unless_first t (ok bundles, w) rest = elim (first_of t bundles) [
    | some b ↦ some (ok b, w)
    | none ↦ rest w
  ]

  -- def wait_reply
  unfoldable pub wait_reply : ℕ → BundleType → Node → W → Option (Result BundleData × W)
  unfolding get_new_bundles unless_first
  wait_reply zero t n w = none
  wait_reply (suc fuel) t n w =
      unless_first t (get_new_bundles send n (sleep w)) (wait_reply fuel t n)

  -- a request, and the wait for its reply
  unfoldable pub request : ℕ → BundleData → BundleType → Node → W → Option (Result BundleData × W)
  unfolding wait_reply
  request fuel bundle t n w =
      let (r, w') = send (create bundle) w in
      let rest = wait_reply fuel t n w' in elim r [ err e ↦ some (err e, w') | ok m ↦ rest ]

  -- def job_query
  unfoldable pub query_jobs : ℕ → Str → Str → Node → W → Option (Result BundleData × W)
  unfolding request
  query_jobs fuel submitter to n =
      request fuel (record (plain_bundle job_query n.node_id to) { submitter = some submitter })
        job_list n

  -- def data_get
  unfoldable pub data_get : ℕ → Str → Str → Node → W → Option (Result BundleData × W)
  unfolding request
  data_get fuel datastore name n =
      request fuel
        (record (plain_bundle ndata_get n.node_id datastore) { named_data = some (one name) })
        ndata_get n

  -- def data_put
  unfoldable pub data_put : ℕ → Str → Str → Bytes → Node → W → Option (Result BundleData × W)
  unfolding request
  data_put fuel datastore name content n =
      request fuel
        (record (plain_bundle ndata_put n.node_id datastore) {
          payload = content;
          named_data = some (one name);
        })
        ndata_put n
