-- ===== src/Tests/Requests.antt =====
-- Runs of rec/dtn/client.py.
use ma_sinafadavi_claude.Prelude.{
  ◌≡◌, ◌∷◌, ◌+◌, ℕ, suc, refl, true, none, some, [], codes, Exec, ok, arith,
}
use ma_sinafadavi_claude.Dtn.Client.{wait_reply}
use ma_sinafadavi_claude.Dtn.Client.Replies.{waited, wait_reply-first}
use ma_sinafadavi_claude.Dtn.Node.Rounds.{get_new_bundles}
use ma_sinafadavi_claude.Dtn.Message.{
  Message, BundleData, plain_bundle, fetch_reply, ndata_get, ndata_put, client,
}
use ma_sinafadavi_claude.Dtn.Node.{Node}

abbrev other_bundle : BundleData
other_bundle = plain_bundle ndata_put (codes "dtn://store/") (codes "dtn://c/")

abbrev reply_bundle : BundleData
reply_bundle = plain_bundle ndata_get (codes "dtn://store/") (codes "dtn://c/")

-- a daemon that has both bundles for every fetch
abbrev daemon : Message → Exec ℕ Message
daemon m w = (ok (fetch_reply true [] (other_bundle ∷ reply_bundle ∷ [])), w + 1)

abbrev node_c : Node
node_c = record {
  node_id = codes "dtn://c/";
  node_type = client;
  broker_pending = none;
  broker = none;
}

other_type : ¬ (other_bundle.type ≡ reply_bundle.type)
other_type e = absurd (omega arith)

wait_reply-first_example :
    wait_reply daemon (λ w. w) (suc (0 + 3)) ndata_get node_c 0
    ≡ some (
      ok reply_bundle,
      (get_new_bundles daemon node_c (waited daemon (λ w. w) ndata_get node_c 0 0)).1,
    )
unfolding get_new_bundles
wait_reply-first_example =
    wait_reply-first daemon (λ w. w) ndata_get node_c 0 3 (other_bundle ∷ []) [] reply_bundle 0 tt
      refl (other_type, tt) refl
