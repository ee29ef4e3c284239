-- ===== src/Dtn/Executor.antt =====
-- rec/dtn/executor.py: the executor's state and its handling of bundles, and the queue of pending
-- jobs. What it runs is in Executor/Environment.antt and Executor/Run.antt. Everything between two
-- waits is one step. What psutil reports is the argument `system`, what msgpack unpacks a
-- parameter.
pub mod Queue
pub mod Handlers
pub mod Paths
pub mod Environment
pub mod Contained
pub mod Collect
pub mod Collected
pub mod Run
pub mod Turns
use ma_sinafadavi_claude.Prelude.{
  ℕ, zero, suc, Bool, true, false, ◌&&◌, ◌||◌, Option, none, some, List, [], ◌∷◌, ◌++◌, Str, Bytes,
  codes, leb, ◌==◌, length, if◌then◌else◌, is_empty, Result, ok, err, Exec, after, attempt,
  attribute_error, type_error,
}
use ma_sinafadavi_claude.Dtn.Message.{
  BundleData, plain_bundle, BundleType, ndata_get, Message, NamedData, one, many, NodeType,
  datastore_multicast_address,
}
use ma_sinafadavi_claude.Dtn.Message.Wire.{Value}
use ma_sinafadavi_claude.Dtn.Node.{Node, new_node, handle_discovery}
use ma_sinafadavi_claude.Dtn.Node.Rounds.{send_answers, bundle_round}
use ma_sinafadavi_claude.Dtn.Storage.{Storage, store_data, find_missing, empty_storage}
use ma_sinafadavi_claude.Dtn.Job.{Capabilities, is_capable_of, JobInfo, required_named_data, Job}

pub record Executor : Type 0 where
  pub node : Node
  pub storage : Storage
  pub pending_jobs : List JobInfo

unfoldable pub new_executor : Str → Executor
unfolding new_node
new_executor id = record {
  node = new_node id NodeType.executor none;
  storage = empty_storage;
  pending_jobs = [];
}

-- What msgpack.unpackb returns: an object of class Job, whose attributes the handler reads, or one
-- of the plain values.
pub data Unpacked : Type 0 where
  job_object : Job → Unpacked
  plain : Value → Unpacked

-- `job.data` and `job.metadata`, which only a Job has
unfoldable pub as_job : Unpacked → Result Job
as_job (job_object j) = ok j
as_job (plain v) = err attribute_error

unfoldable pub data_request : Str → List Str → BundleData
data_request id missing = record (plain_bundle ndata_get id datastore_multicast_address) {
  named_data = some (many missing);
}

-- async def _job_has_all_inputs
unfoldable pub job_has_all_inputs : Storage → JobInfo → Bool
job_has_all_inputs s j = is_empty (find_missing (required_named_data j) s)

-- def _system_can_run
unfoldable pub system_can_run : Capabilities → JobInfo → Bool
system_can_run system j = is_capable_of system j.capabilities

unfoldable pub is_runnable : Capabilities → Storage → JobInfo → Bool
unfolding job_has_all_inputs system_can_run
is_runnable system s j = job_has_all_inputs s j && system_can_run system j

-- the loop of _has_runnable_job
unfoldable pub any_runnable : Capabilities → Storage → List JobInfo → Bool
any_runnable system s [] = false
any_runnable system s (j ∷ js) =
    let rest = any_runnable system s js in if is_runnable system s j then true else rest

unfoldable pub has_runnable_job : Capabilities → Executor → Bool
has_runnable_job system e = any_runnable system e.storage e.pending_jobs

-- The loop of _pop_next_runnable_job with the rounds that are left: the first job is taken off the
-- queue, and returned or put back at the end. What psutil reports is the same in all rounds here.
unfoldable pub rotate : Capabilities → Storage → ℕ → List JobInfo → Option JobInfo × List JobInfo
rotate system s zero js = (none, js)
rotate system s (suc k) [] = (none, [])
rotate system s (suc k) (j ∷ js) =
    let later = rotate system s k (js ++ j ∷ []) in
    if is_runnable system s j then (some j, js) else later

unfoldable pub pop_next_runnable_job : Capabilities → Executor → Option JobInfo × Executor
unfolding rotate
pop_next_runnable_job system e =
    let (job, js) = rotate system e.storage (length e.pending_jobs) e.pending_jobs in
    (job, record e { pending_jobs = js })

-- What is missing of the job is asked for, and the job waits.
unfoldable pub enqueue : JobInfo → Executor → List BundleData × Executor
unfolding data_request
enqueue j e =
    let missing = find_missing (required_named_data j) e.storage in
    (
      if is_empty missing then [] else data_request e.node.node_id missing ∷ [],
      record e { pending_jobs = e.pending_jobs ++ j ∷ [] },
    )

module _ (sha1 : Bytes → Str) where
  -- the loop that stores what came with the job
  unfoldable pub store_all : List (Str × Bytes) → Exec Storage (Unit {0})
  store_all [] s = (ok tt, s)
  store_all ((name, content) ∷ rest) s =
      after (store_data sha1 name content s) (λ _. store_all rest)

  -- `for name in bundle.named_data: store_data(name, bundle.payload)`
  unfoldable pub store_names : Bytes → List Str → Exec Storage (Unit {0})
  store_names content [] s = (ok tt, s)
  store_names content (name ∷ names) s =
      after (store_data sha1 name content s) (λ _. store_names content names)

  unfoldable pub accept_job : Job → Exec Executor (List BundleData)
  unfolding store_all enqueue
  accept_job j e =
      let (r, s) = store_all j.contents e.storage in
      after (r, record e { storage = s })
        λ _ e'. let (out, e'') = enqueue j.metadata e' in (ok out, e'')

  -- async def _handle_data: iterating over None is a TypeError
  unfoldable pub handle_data : Option NamedData → Bytes → Exec Executor (Unit {0})
  unfolding store_names
  handle_data none content e = (err type_error, e)
  handle_data (some (one name)) content e =
      let (r, s) = store_names content (name ∷ []) e.storage in (r, record e { storage = s })
  handle_data (some (many names)) content e =
      let (r, s) = store_names content names e.storage in (r, record e { storage = s })

module _ (sha1 : Bytes → Str) (unpackb : Bytes → Result Unpacked) where
  -- async def _handle_job
  unfoldable pub handle_job : BundleData → Exec Executor (List BundleData)
  unfolding as_job accept_job
  handle_job bundle e =
      after (unpackb bundle.payload, e) λ u e₁. after (as_job u, e₁) λ j. accept_job sha1 j

  -- What is to be sent for a bundle; the three tests exclude one another.
  unfoldable pub answers : BundleData → Exec Executor (List BundleData)
  unfolding handle_job handle_data
  answers bundle e =
      if leb 1 bundle.type && leb bundle.type 3
      then (let (out, n) = handle_discovery bundle e.node in (ok out, record e { node = n }))
      else if bundle.type == 11
      then handle_job bundle e
      else if bundle.type == 22
      then after (handle_data sha1 bundle.named_data bundle.payload e) (λ _ e'. (ok [], e'))
      else (ok [], e)

  module _ {W : Type 0} (send : Message → Exec W Message) where
    unfoldable pub handle_bundle : BundleData → Exec (Executor × W) (Unit {0})
    unfolding answers send_answers
    handle_bundle bundle s =
        let (r, e) = answers bundle s.0 in
        after (r, (e, s.1)) (λ to_send. send_answers send to_send)

    -- One round of _handle_bundles.
    unfoldable pub round : Executor × W → Executor × W
    unfolding bundle_round handle_bundle
    round = bundle_round send (λ e. e.node) handle_bundle
