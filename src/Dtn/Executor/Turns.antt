-- ===== src/Dtn/Executor/Turns.antt =====
-- What one turn of the scheduler does to the queue and to the results.
use ma_sinafadavi_claude.Prelude.{
  after_inv, ◌∙◌, true, Option, none, some, List, ◌∷◌, ◌++◌, Str, Bytes, ok, err, Exec, name_taken,
  ◌≡◌, refl,
}
use ma_sinafadavi_claude.Dtn.Message.{Message}
use ma_sinafadavi_claude.Dtn.Storage.{Storage}
use ma_sinafadavi_claude.Dtn.Storage.Unique.{find_name}
use ma_sinafadavi_claude.Dtn.Storage.Views.{store_data_taken}
use ma_sinafadavi_claude.Dtn.Job.{Capabilities, JobInfo}
use ma_sinafadavi_claude.Dtn.Executor.{Executor, store_all, is_runnable}
use ma_sinafadavi_claude.Dtn.Executor.Queue.{NoneRunnable, pop_first_runnable}
use ma_sinafadavi_claude.Dtn.Executor.Run.{
  Outcome, send_results, send_named_results, finish_job, run_popped, turn,
}

module _ {W : Type 0} (send : Message → Exec W Message) (sha1 : Bytes → Str)
    (run : JobInfo → Exec Storage Outcome) where
  pending_jobs-finish_job :
      (job : JobInfo) (o : Outcome) (s : Executor × W)
      → (finish_job send sha1 run job o s).1.0.pending_jobs ≡ s.0.pending_jobs
  unfolding finish_job
  pending_jobs-finish_job job o s =
      after_inv (λ (t : Executor × W). t.0.pending_jobs ≡ s.0.pending_jobs)
        (
          (store_all sha1 o.1 s.0.storage).0,
          (
            record s.0 { storage = (store_all sha1 o.1 s.0.storage).1 },
            send_results send s.0.node.node_id job o.0 s.1,
          ),
        )
        (λ _ t. (ok tt, (t.0, send_named_results send s.0.node.node_id o.1 t.1))) refl
        (λ _ t _ h. h)

  pending_jobs-run_popped :
      (job : Option JobInfo) (s : Executor × W)
      → (run_popped send sha1 run job s).0.pending_jobs ≡ s.0.pending_jobs
  unfolding run_popped
  pending_jobs-run_popped none s = refl
  pending_jobs-run_popped (some job) s =
      let (r, t) = run job s.0.storage in
      after_inv (λ (u : Executor × W). u.0.pending_jobs ≡ s.0.pending_jobs)
        (r, (record s.0 { storage = t }, s.1)) (λ o. finish_job send sha1 run job o) refl
        (λ o u _ h. pending_jobs-finish_job job o u ∙ h)

  -- A turn takes the first runnable job off the queue for good, whether its run, its results or
  -- their sending fail or not; the jobs before it, of which none can run, go behind the others.
  pub turn_takes_first :
      (system : Capabilities) (s : Executor × W) (before after_it : List JobInfo) (j : JobInfo)
      → s.0.pending_jobs ≡ before ++ (j ∷ after_it)
      → NoneRunnable system s.0.storage before
      → is_runnable system s.0.storage j ≡ true
      → (turn send sha1 run system s).0.pending_jobs ≡ after_it ++ before
  unfolding turn
  turn_takes_first system s before after_it j p h r =
      rw (pop_first_runnable system s.0 before after_it j p h r)
        (pending_jobs-run_popped (some j) (record s.0 { pending_jobs = after_it ++ before }, s.1))

  -- A job whose first named result has a name that is cached already sends its results, and then
  -- fails: the result is not stored, and none of its named results is sent to a datastore.
  pub taken_result_unsent :
      (job : JobInfo) (zip : Option Bytes) (n f : Str) (c : Bytes) (rest : List (Str × Bytes))
      (s : Executor × W)
      → find_name n s.0.storage.db ≡ some f
      → finish_job send sha1 run job (zip, (n, c) ∷ rest) s
        ≡ (err (name_taken n), (s.0, send_results send s.0.node.node_id job zip s.1))
  unfolding finish_job store_all
  taken_result_unsent job zip n f c rest s taken =
      rw (store_data_taken sha1 n f c s.0.storage taken)
