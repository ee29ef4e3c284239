-- ===== src/Rest/ExecutorBroker/Events.antt =====
-- The events around the broker's scheduler, and what they do.
use ma_sinafadavi_claude.Prelude.{ℕ, Bool, Option, none, some, List, [], ◌∷◌, Str}
use ma_sinafadavi_claude.Rest.Model.{JobInfo}
use ma_sinafadavi_claude.Rest.ExecutorBroker.{
  Executor, ExecutorBroker, job_done, scheduler_step, stop, heartbeat_executor, Capabilities,
  submit_job,
}

-- What may happen around the scheduler: a pass of its loop, the endpoint that submits a job, a
-- heartbeat of an executor, a job that is reported as done, and the end of the broker.
pub data Event : Type 0 where
  pass : (now choice : ℕ) → Event
  submitted :
      (now choice : ℕ) (client job_id : Str) (info : JobInfo) (wait_for : Option (List Str)) → Event
  heartbeat : (exec_id : Str) (caps : Capabilities) (now : ℕ) → Event
  done : (job_id : Str) → Event
  stopped : Event

-- the events that do not concern the queue: heartbeats, and the jobs that are submitted without a set
-- of jobs to wait for
unfoldable pub past_queue : List Event → List Event
past_queue [] = []
past_queue (heartbeat exec_id caps now ∷ es) = heartbeat exec_id caps now ∷ past_queue es
past_queue (submitted now choice client job_id info none ∷ es) =
    submitted now choice client job_id info none ∷ past_queue es
past_queue (submitted now choice client job_id info (some wait_for) ∷ es) = past_queue es
past_queue (pass now choice ∷ es) = past_queue es
past_queue (done job_id ∷ es) = past_queue es
past_queue (stopped ∷ es) = past_queue es

module _ {W : Type 0} (submit : Executor → Str → JobInfo → W → Bool × W)
    (on_job_started : Str → JobInfo → W → W) (second : ℕ) where
  unfoldable pub happen : Event → ExecutorBroker × W → ExecutorBroker × W
  happen (pass now choice) s = scheduler_step submit on_job_started second now choice s
  happen (submitted now choice client job_id info wait_for) s =
      (submit_job submit on_job_started second now choice client job_id info wait_for s).1
  happen (heartbeat exec_id caps now) s = ((heartbeat_executor exec_id caps now s.0).1, s.1)
  happen (done job_id) s = (job_done job_id s.0, s.1)
  happen stopped s = (stop s.0, s.1)

  unfoldable pub happen_all : List Event → ExecutorBroker × W → ExecutorBroker × W
  unfolding happen
  happen_all [] s = s
  happen_all (e ∷ es) s = happen_all es (happen e s)
