-- ===== src/Rest/ExecutorBroker/States.antt =====
-- What a heartbeat and a submission without a set of jobs to wait for make of the broker's state.
use ma_sinafadavi_claude.Prelude.{
  ◌∙◌, ℕ, Bool, true, false, Option, none, some, List, Str, ◌≡◌, refl, arith, if◌then◌else◌, values,
  lookup, insert, codes, ok, err, http_error, Result,
}
use ma_sinafadavi_claude.Rest.Model.{JobInfo}
use ma_sinafadavi_claude.Rest.ExecutorBroker.{
  Executor, ExecutorBroker, remove_all, heartbeat_executor, stale_ids, prune_executor_list,
  capable_executor, Capabilities, submit_job, choose, capable, addressed, try_submit,
}

-- what a heartbeat makes of the executors
pub beaten : Str → Capabilities → ℕ → List (Str × Executor) → List (Str × Executor)
beaten exec_id caps now es = elim (lookup exec_id es) [
  | none ↦ es
  | some e ↦ insert exec_id (record e { cur_caps = caps; last_update = now }) es
]

pub heartbeat_executor-state :
    (exec_id : Str) (caps : Capabilities) (now : ℕ) (b : ExecutorBroker)
    → (heartbeat_executor exec_id caps now b).1
      ≡ record b { executors = beaten exec_id caps now b.executors }
unfolding heartbeat_executor beaten
heartbeat_executor-state exec_id caps now b = ground arith

-- the executors after the old ones are dropped
pub pruned : ℕ → ℕ → List (Str × Executor) → List (Str × Executor)
pruned second now es = remove_all (stale_ids second now es) es

module _ {W : Type 0} (submit : Executor → Str → JobInfo → W → Bool × W)
    (on_job_started : Str → JobInfo → W → W) (second : ℕ) where
  -- what the attempt to hand a job to an executor does outside
  pub offered : Option Executor → Str → JobInfo → W → W
  offered none job_id info w = w
  offered (some e) job_id info w =
      let (taken, w') = submit e job_id info w in
      if taken then on_job_started job_id info w' else w'

  try_submit-state :
      (e : Option Executor) (job_id : Str) (info : JobInfo) (b : ExecutorBroker) (w : W)
      → (try_submit submit on_job_started second e job_id info (b, w)).1
        ≡ (b, offered e job_id info w)
  unfolding try_submit offered
  try_submit-state none job_id info b w = refl
  try_submit-state (some e) job_id info b w = by_answer (submit e job_id info w)
    where
      by_answer :
          (r : Bool × W)
          → (if◌then◌else◌ {A = Bool × (ExecutorBroker × W)} r.0
              (true, (b, on_job_started job_id info r.1))
              (false, (b, r.1))).1
            ≡ (b, if r.0 then on_job_started job_id info r.1 else r.1)
      by_answer (true, w') = refl
      by_answer (false, w') = refl

  answered :
      (e : Option Executor) (job_id : Str) (r : Bool × (ExecutorBroker × W))
      → (if◌then◌else◌ {A = Result Str × (ExecutorBroker × W)} r.0
          (ok job_id, r.1)
          (elim e [
            | none ↦ (err (http_error (codes "No capable Executor")), r.1)
            | some _ ↦ (err (http_error (codes "Failed to submit Job")), r.1)
          ])).1
        ≡ r.1
  answered e job_id (true, s) = refl
  answered none job_id (false, s) = refl
  answered (some e) job_id (false, s) = refl

  pub submit_job-state :
      (now choice : ℕ) (client job_id : Str) (info : JobInfo) (b : ExecutorBroker) (w : W)
      → (submit_job submit on_job_started second now choice client job_id info none (b, w)).1 ≡ (
        record b { executors = pruned second now b.executors },
        offered
            (choose choice (capable info.capabilities (values (pruned second now b.executors))))
            job_id
            (addressed submit on_job_started second client info)
            w,
      )
  unfolding submit_job capable_executor prune_executor_list pruned
  submit_job-state now choice client job_id info b w =
      let es = pruned second now b.executors in
      let e = choose choice (capable info.capabilities (values es)) in
      let info' = addressed submit on_job_started second client info in
      let b' : ExecutorBroker = record b { executors = es } in
      answered e job_id (try_submit submit on_job_started second e job_id info' (b', w))
      ∙ try_submit-state e job_id info' b' w
