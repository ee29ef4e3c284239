-- ===== src/Dtn/Node/Rounds.antt =====
-- What the nodes do with dtnd: _send_bundle, _send_bundles and _get_new_bundles of rec/dtn/node.py,
-- and one round of the loop over new bundles that broker, datastore and executor each write out.
-- `send` is _send_message, an action on the outside world `W`.
use ma_sinafadavi_claude.Prelude.{
  List, [], ◌∷◌, if◌then◌else◌, Result, ok, err, Exec, after, attempt, for_each, for_each_inv,
  assertion_error, is_empty,
}
use ma_sinafadavi_claude.Dtn.Message.{
  BundleData, Message, fetch, fetch_reply, create, node_type_value,
}
use ma_sinafadavi_claude.Dtn.Node.{Node}

-- An action on the outside world that leaves the node's own state alone.
abbrev pub outside : {S W A : Type 0} → Exec W A → Exec (S × W) A
outside m s = ((m s.1).0, (s.0, (m s.1).1))

-- the bundles of a fetch's reply
unfoldable pub fetched : Message → Result (List BundleData)
fetched (fetch_reply success error bundles) = ok (if success then bundles else [])
fetched _ = err assertion_error

module _ {W : Type 0} (send : Message → Exec W Message) where
  unfoldable pub send_bundle : BundleData → Exec W Message
  send_bundle bundle = send (create bundle)

  -- The replies, in order; an exception ends the loop.
  unfoldable pub send_bundles : List BundleData → Exec W (List Message)
  unfolding send_bundle
  send_bundles [] w = (ok [], w)
  send_bundles (b ∷ bs) w =
      after (send_bundle b w) λ r w₁. after (send_bundles bs w₁) λ rs w₂. (ok (r ∷ rs), w₂)

  unfoldable pub get_new_bundles : Node → Exec W (List BundleData)
  unfolding fetched
  get_new_bundles n w =
      after (send (fetch n.node_id (node_type_value n.node_type)) w) λ r w₁. (fetched r, w₁)

  -- The answers to a bundle, sent with every exception logged; no answer is no exchange.
  unfoldable pub send_answers : {S : Type 0} → List BundleData → S × W → Result (Unit {0}) × (S × W)
  unfolding send_bundles
  send_answers bundles s =
      if is_empty bundles then (ok tt, s) else (ok tt, attempt (outside (send_bundles bundles) s))

  -- One round: fetch, and handle the bundles in order; an exception is logged and ends the round.
  unfoldable pub bundle_round :
      {S : Type 0} → (S → Node) → (BundleData → Exec (S × W) (Unit {0})) → S × W → S × W
  unfolding get_new_bundles
  bundle_round node handle s =
      attempt (after (outside (get_new_bundles (node s.0)) s) λ bundles. for_each handle bundles)

  module _ {S : Type 0} (P : S → Type 0) (node : S → Node)
      (handle : BundleData → Exec (S × W) (Unit {0})) where
    -- What every bundle keeps, a round keeps, also where an exception ends it.
    pub bundle_round_inv :
        ((b : BundleData) (s : S × W) → P s.0 → P (handle b s).1.0)
        → (s : S × W) → P s.0
        → P (bundle_round node handle s).0
    unfolding bundle_round
    bundle_round_inv step s h = go (get_new_bundles (node s.0) s.1)
      where
        go :
            (r : Result (List BundleData) × W)
            → P (after (r.0, (s.0, r.1)) (λ bundles. for_each handle bundles)).1.0
        go (ok bundles, w) = for_each_inv (λ (t : S × W). P t.0) handle step bundles (s.0, w) h
        go (err e, w) = h
