-- ===== src/Dtn/Executor/Run.antt =====
-- The executor's scheduler: Executor._run_job, _send_results, _store_named_results,
-- _send_named_results and one turn of _scheduler. The WebAssembly run is a parameter: from the
-- prepared directory to the exit code, or an exception, and the file system that it leaves.
use ma_sinafadavi_claude.Prelude.{
  ℕ, Option, none, some, List, [], ◌∷◌, Str, Bytes, Result, ok, err, ◌>>=◌, Exec, after, attempt,
}
use ma_sinafadavi_claude.Dtn.Message.{
  BundleData, plain_bundle, job_result, ndata_put, Message, one, datastore_multicast_address,
}
use ma_sinafadavi_claude.Dtn.Node.Rounds.{send_bundle}
use ma_sinafadavi_claude.Dtn.Storage.{Storage}
use ma_sinafadavi_claude.Dtn.Job.{Capabilities, JobInfo, given}
use ma_sinafadavi_claude.Dtn.Executor.{Executor, store_all, pop_next_runnable_job}
use ma_sinafadavi_claude.Dtn.Executor.Paths.{FilePath}
use ma_sinafadavi_claude.Dtn.Executor.Environment.{Disk, mkdir, prepare_wasi_environment}
use ma_sinafadavi_claude.Dtn.Executor.Collect.{FileSystem, collect_results, collect_named_results}

-- the results zip and the named results of a job
abbrev pub Outcome : Type 0
Outcome = Option Bytes × List (Str × Bytes)

-- the part of _run_job under `try`, up to the handler
unfoldable pub collect_outcome : FileSystem → JobInfo → FilePath → Result Outcome
collect_outcome fs job dir = do
  results ← collect_results fs job dir
  named ← collect_named_results fs job dir
  ok (results, named)

-- except Exception: return None, {}
unfoldable pub or_nothing : Result Outcome → Outcome
or_nothing (ok o) = o
or_nothing (err e) = (none, [])

-- shutil.rmtree(job_dir), if it exists
unfoldable pub rmtree : FilePath → Disk → Disk
rmtree dir d = record d { removed = dir ∷ d.removed }

module _ (resolve : FilePath → FilePath) (run_wasi : JobInfo → Disk → Result ℕ × FileSystem) where
  -- The preparation stands outside the `try`, so that its exceptions leave the method.
  unfoldable pub run_job : JobInfo → FilePath → Exec Disk Outcome
  unfolding collect_outcome or_nothing rmtree
  run_job job dir d = after (prepare_wasi_environment resolve job dir (mkdir dir d)) λ _ d'.
      let (exit_code, fs) = run_wasi job d' in
      (ok (or_nothing (exit_code >>= λ _. collect_outcome fs job dir)), rmtree dir d')

module _ {W : Type 0} (send : Message → Exec W Message) where
  -- a bundle, with every exception logged
  unfoldable pub send_logged : BundleData → W → W
  unfolding send_bundle
  send_logged bundle w = attempt (send_bundle send bundle w)

  unfoldable pub send_results : Str → JobInfo → Option Bytes → W → W
  unfolding send_logged given
  send_results id job none w = w
  send_results id job (some []) w = w
  send_results id job (some (b ∷ bs)) w = elim (given job.results_receiver) [
    | [] ↦ w
    | receiver ∷ _ ↦
        send_logged (record (plain_bundle job_result id receiver) { payload = b ∷ bs }) w
  ]

  unfoldable pub named_bundle : Str → Str → Bytes → BundleData
  named_bundle id name content = record (plain_bundle ndata_put id datastore_multicast_address) {
    payload = content;
    named_data = some (one name);
  }

  unfoldable pub send_named_results : Str → List (Str × Bytes) → W → W
  unfolding send_logged named_bundle
  send_named_results id [] w = w
  send_named_results id ((name, content) ∷ rest) w =
      send_named_results id rest (send_logged (named_bundle id name content) w)

  module _ (sha1 : Bytes → Str) (run : JobInfo → Exec Storage Outcome) where
    -- what follows a run: the results are sent, the named ones stored and then sent
    unfoldable pub finish_job : JobInfo → Outcome → Exec (Executor × W) (Unit {0})
    unfolding send_results send_named_results store_all
    finish_job job outcome s =
        let e = s.0 in
        let w = send_results e.node.node_id job outcome.0 s.1 in
        let (r, stored) = store_all sha1 outcome.1 e.storage in
        after (r, (record e { storage = stored }, w))
          λ _ s'. (ok tt, (s'.0, send_named_results e.node.node_id outcome.1 s'.1))

    unfoldable pub run_popped : Option JobInfo → Executor × W → Executor × W
    unfolding finish_job
    run_popped none s = s
    run_popped (some job) s =
        let (r, storage) = run job s.0.storage in
        attempt
          (after (r, (record s.0 { storage = storage }, s.1)) (λ outcome. finish_job job outcome))

    -- One turn of _scheduler, after its wait, as one step: no bundle is handled while the job runs and
    -- its results are sent. Exceptions are logged.
    unfoldable pub turn : Capabilities → Executor × W → Executor × W
    unfolding run_popped
    turn system s = let (job, e) = pop_next_runnable_job system s.0 in run_popped job (e, s.1)
