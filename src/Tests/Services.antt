-- ===== src/Tests/Services.antt =====
-- Runs of rec/rest.
use ma_sinafadavi_claude.Rest.ExecutorBroker.{Executor, QueuedJob, ExecutorBroker, capable_executor}
use ma_sinafadavi_claude.Rest.ExecutorBroker.Executors.{
  AreKeyed, IsSuited, capable_executor-IsSuited,
}
use ma_sinafadavi_claude.Rest.ExecutorBroker.Scheduler.{NotDone, happen_all-blocked}
use ma_sinafadavi_claude.Rest.ExecutorBroker.Events.{
  Event, pass, submitted, done, past_queue, happen_all,
}
use ma_sinafadavi_claude.Prelude.{
  Bool, none, some, List, [], ◌∷◌, ℕ, suc, lookup, member, str_eq, Str, codes, ◌≡◌, true, false,
  refl, keep, values, ◌++◌,
}
use ma_sinafadavi_claude.Rest.Model.{Capabilities, is_capable, JobInfo, named}

abbrev some_id : Str
some_id = codes "123e4567-e89b-42d3-a456-426614174000"

abbrev plugged : Capabilities
plugged = record {
  memory = 8;
  disk = 8;
  cpu_load = 1;
  cpu_cores = 4;
  cpu_freq = 2;
  has_battery = false;
  power = 0;
}

abbrev asked : Capabilities
asked = record plugged { memory = 4; has_battery = true; power = 50 }

plugged_fits_asked : is_capable plugged asked ≡ true
unfolding is_capable
plugged_fits_asked = refl

abbrev worker : Executor
worker = record {
  id = some_id;
  address = record { host = codes "10.0.0.1"; port = 8000 };
  cur_caps = plugged;
  last_update = 100;
}

abbrev waiting_job : QueuedJob
waiting_job = record {
  job_id = codes "job-2";
  job_info = record {
    wasm_bin = named (codes "a.wasm");
    wasm_bin_is_named = true;
    stdin = named [];
    stdin_is_named = false;
    job_data = [];
    named_data = [];
    directories = [];
    args = [];
    env = [];
    zip_results = [];
    named_results = [];
    capabilities = asked;
    result_addr = record { host = codes "this"; port = 8000 };
    delete = true;
  };
  wait_for = codes "job-1" ∷ [];
}

abbrev center : ExecutorBroker
center = record {
  executors = (some_id, worker) ∷ [];
  queued_jobs = [];
  completed_jobs = [];
  should_exit = false;
  current_job = some waiting_job;
  returned = false;
}

worker_chosen : capable_executor 1 150 7 asked center ≡ (some worker, center)
unfolding capable_executor keep values is_capable
worker_chosen = refl

center_AreKeyed : AreKeyed center.executors
unfolding lookup
center_AreKeyed = (refl, refl, tt)

capable_executor-IsSuited_example :
    IsSuited 1 150 asked center.executors worker × AreKeyed center.executors
capable_executor-IsSuited_example =
    capable_executor-IsSuited 1 150 7 asked center center worker center_AreKeyed worker_chosen

-- an executor's server that takes every job; the world counts the jobs
abbrev submit : Executor → Str → JobInfo → ℕ → Bool × ℕ
submit e job_id info w = (true, suc w)

abbrev started : Str → JobInfo → ℕ → ℕ
started job_id info w = w

abbrev events : List Event
events =
    pass 150 0
    ∷ submitted 150 0 (codes "client") (codes "job-3") waiting_job.job_info (some [])
    ∷ submitted 150 0 (codes "client") (codes "job-4") waiting_job.job_info none
    ∷ done (codes "job-0")
    ∷ pass 151 0
    ∷ []

events_lack_job_1 : NotDone (codes "job-1") events
unfolding str_eq
events_lack_job_1 = (refl, tt)

happen_all-blocked_example :
    ((happen_all submit started 1 events (center, 0)).0.current_job ≡ some waiting_job)
    × ((more : List QueuedJob) × ((happen_all submit started 1 events (center, 0)).0.queued_jobs
          ≡ [] ++ more))
    × ((happen_all submit started 1 events (center, 0)).1
        ≡ (happen_all submit started 1 (past_queue events) (center, 0)).1)
happen_all-blocked_example =
    happen_all-blocked submit started 1 events (center, 0) waiting_job (codes "job-1") refl
      (unfold member str_eq in refl) (unfold member in refl) events_lack_job_1

-- one job is handed to an executor, the one that waits for nothing
one_submitted : (happen_all submit started 1 events (center, 0)).1 ≡ 1
unfolding happen_all ma_sinafadavi_claude.Rest.ExecutorBroker.scheduler_step
    ma_sinafadavi_claude.Rest.ExecutorBroker.job_done member
    ma_sinafadavi_claude.Rest.ExecutorBroker.submit_job capable_executor keep values is_capable
    str_eq
one_submitted = refl
