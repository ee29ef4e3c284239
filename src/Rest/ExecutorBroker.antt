-- ===== src/Rest/ExecutorBroker.antt =====
-- rec/rest/nodes/brokers/executorbroker.py: the executors that a broker knows, and its job queue.
-- Identifiers are texts. Time is a number of ticks, `second` of them in a second. The calls to an
-- executor's server are parameters that act on the outside world, as is the callback for a started
-- job; `choice` is where random.choice points. Each endpoint, and each pass of the scheduler's
-- inner loop, is one step; waiting is no step.
pub mod Events
pub mod States
pub mod Scheduler
pub mod Executors
use ma_sinafadavi_claude.Prelude.{
  ℕ, zero, suc, ◌-◌, ◌*◌, ◌%◌, Bool, true, false, ◌&&◌, Option, none, some, List, [], ◌∷◌, ◌++◌,
  Str, codes, ltb, length, str_eq, member, keep, lookup, insert, remove, values, if◌then◌else◌,
  Result, ok, err, http_error, Exec, after,
}
use ma_sinafadavi_claude.Rest.Model.{Address, Capabilities, is_capable, JobInfo}
use ma_sinafadavi_claude.Rest.Service.{id_text}

-- rec/rest/nodetypes/executor.py: what a broker keeps of an executor
pub record Executor : Type 0 where
  pub id : Str
  pub address : Address
  pub cur_caps : Capabilities
  pub last_update : ℕ

pub record QueuedJob : Type 0 where
  pub job_id : Str
  pub job_info : JobInfo
  pub wait_for : List Str

pub record ExecutorBroker : Type 0 where
  pub executors : List (Str × Executor)
  pub queued_jobs : List QueuedJob
  pub completed_jobs : List Str
  pub should_exit : Bool
  -- the scheduler's current job, and whether its thread has returned
  pub current_job : Option QueuedJob
  pub returned : Bool

unfoldable pub new_broker : ExecutorBroker
new_broker = record {
  executors = [];
  queued_jobs = [];
  completed_jobs = [];
  should_exit = false;
  current_job = none;
  returned = false;
}

-- the ids of the executors that have not been heard of for more than 130 seconds
unfoldable pub stale_ids : ℕ → ℕ → List (Str × Executor) → List Str
stale_ids second now [] = []
stale_ids second now ((k, e) ∷ es) =
    let rest = stale_ids second now es in
    if ltb (130 * second) (now - e.last_update) then e.id ∷ rest else rest

unfoldable pub remove_all : List Str → List (Str × Executor) → List (Str × Executor)
remove_all [] es = es
remove_all (k ∷ ks) es = remove_all ks (remove k es)

unfoldable pub prune_executor_list : ℕ → ℕ → ExecutorBroker → ExecutorBroker
unfolding stale_ids remove_all
prune_executor_list second now b = record b {
  executors = remove_all (stale_ids second now b.executors) b.executors;
}

unfoldable pub executor_count : ℕ → ℕ → ExecutorBroker → ℕ × ExecutorBroker
unfolding prune_executor_list
executor_count second now b = let b' = prune_executor_list second now b in (length b'.executors, b')

unfoldable pub capable : Capabilities → List Executor → List Executor
capable caps es = keep (λ e. is_capable e.cur_caps caps) es

unfoldable pub element : ℕ → List Executor → Option Executor
element n [] = none
element zero (e ∷ es) = some e
element (suc n) (e ∷ es) = element n es

-- random.choice(es) if len(es) else None
unfoldable pub choose : ℕ → List Executor → Option Executor
unfolding element
choose choice es = element (choice % length es) es

unfoldable pub capable_executor :
    ℕ → ℕ → ℕ → Capabilities → ExecutorBroker → Option Executor × ExecutorBroker
unfolding prune_executor_list capable choose
capable_executor second now choice caps b =
    let b' = prune_executor_list second now b in
    (choose choice (capable caps (values b'.executors)), b')

unfoldable pub heartbeat_executor :
    Str → Capabilities → ℕ → ExecutorBroker → Result (Unit {0}) × ExecutorBroker
heartbeat_executor exec_id caps now b = elim (lookup exec_id b.executors) [
  | none ↦ (err (http_error (codes "No such executor")), b)
  | some e ↦ (
    ok tt,
    record b {
      executors = insert exec_id (record e { cur_caps = caps; last_update = now }) b.executors;
    },
  )
]

unfoldable pub job_done : Str → ExecutorBroker → ExecutorBroker
job_done job_id b =
    if member job_id b.completed_jobs
    then b
    else record b { completed_jobs = job_id ∷ b.completed_jobs }

unfoldable pub queue_job : Str → JobInfo → Option (List Str) → ExecutorBroker → ExecutorBroker
queue_job job_id info none b = record b {
  queued_jobs = b.queued_jobs ++ record { job_id = job_id; job_info = info; wait_for = [] } ∷ [];
}
queue_job job_id info (some wait_for) b = record b {
  queued_jobs =
      b.queued_jobs ++ record { job_id = job_id; job_info = info; wait_for = wait_for } ∷ [];
}

unfoldable pub stop : ExecutorBroker → ExecutorBroker
stop b = record b { should_exit = true }

-- wait_for.issubset(completed)
unfoldable pub all_completed : List Str → List Str → Bool
all_completed [] completed = true
all_completed (x ∷ xs) completed = member x completed && all_completed xs completed

-- the executor as it is seen at a host
unfoldable pub at_host : Str → Executor → Executor
at_host host e = record e { address = record e.address { host = host } }

-- the client's own host goes first, if it is among the hosts
unfoldable pub without : Str → List Str → List Str
without h [] = []
without h (x ∷ xs) = if str_eq x h then xs else x ∷ without h xs

unfoldable pub client_first : Str → List Str → List Str
unfolding without
client_first client hosts = if member client hosts then client ∷ without client hosts else hosts

module _ {W : Type 0} (ping : Executor → W → Option Str × W) (uuid : Str → Result Str) where
  -- Whether the name that the server gave belongs to the executor; a name that holds no UUID is a
  -- ValueError.
  unfoldable pub is_named : Option Str → Str → Result Bool
  is_named none id = ok false
  is_named (some name) id = elim (uuid (id_text name)) [
    | ok found ↦ ok (str_eq found id)
    | err e ↦ err e
  ]

  -- The loop over the hosts: the first at which the executor answers by its own name counts.
  unfoldable pub register_at : Executor → List Str → Exec (ExecutorBroker × W) (Unit {0})
  unfolding is_named at_host
  register_at e [] s = (err (http_error (codes "Could not ping to verify")), s)
  register_at e (host ∷ hosts) s =
      let (name, w) = ping (at_host host e) s.1 in
      after (is_named name e.id, (s.0, w))
        λ found s'. elim found [
          | true ↦ (
            ok tt,
            (record s'.0 { executors = insert e.id (at_host host e) s'.0.executors }, s'.1),
          )
          | false ↦ register_at e hosts s'
        ]

  unfoldable pub register_executor :
      Str → List Str → Executor → Exec (ExecutorBroker × W) (Unit {0})
  unfolding register_at client_first
  register_executor client hosts e s = register_at e (client_first client hosts) s

module _ {W : Type 0} (submit : Executor → Str → JobInfo → W → Bool × W)
    (on_job_started : Str → JobInfo → W → W) (second : ℕ) where
  -- the attempt to hand a job to a capable executor, and whether it was taken
  unfoldable pub try_submit :
      Option Executor → Str → JobInfo → ExecutorBroker × W → Bool × (ExecutorBroker × W)
  try_submit none job_id info s = (false, s)
  try_submit (some e) job_id info s =
      let (taken, w) = submit e job_id info s.1 in
      if taken then (true, (s.0, on_job_started job_id info w)) else (false, (s.0, w))

  unfoldable pub submit_now :
      ℕ → ℕ → Str → JobInfo → ExecutorBroker × W → Bool × (ExecutorBroker × W)
  unfolding try_submit
  submit_now now choice job_id info s =
      let (e, b) = capable_executor second now choice info.capabilities s.0 in
      try_submit e job_id info (b, s.1)

  -- `this` as the host of the results is the client
  unfoldable pub addressed : Str → JobInfo → JobInfo
  addressed client info =
      if str_eq info.result_addr.host (codes "this")
      then record info { result_addr = record info.result_addr { host = client } }
      else info

  -- PUT /job/submit: without `wait_for` at once, with it by the queue. The two failures have texts
  -- of their own, by whether a capable executor was there.
  unfoldable pub submit_job :
      ℕ → ℕ → Str → Str → JobInfo → Option (List Str) → Exec (ExecutorBroker × W) Str
  unfolding submit_now addressed queue_job
  submit_job now choice client job_id info (some wait_for) s =
      (ok job_id, (queue_job job_id (addressed client info) (some wait_for) s.0, s.1))
  submit_job now choice client job_id info none s =
      let (e, b) = capable_executor second now choice info.capabilities s.0 in
      let (taken, s') = try_submit e job_id (addressed client info) (b, s.1) in
      if taken then (ok job_id, s') else elim e [
        | none ↦ (err (http_error (codes "No capable Executor")), s')
        | some _ ↦ (err (http_error (codes "Failed to submit Job")), s')
      ]

  -- One pass of the inner loop of job_scheduler with its current job.
  unfoldable pub try_current : ℕ → ℕ → QueuedJob → ExecutorBroker × W → ExecutorBroker × W
  unfolding submit_now all_completed
  try_current now choice j s =
      if s.0.should_exit
      then (record s.0 { returned = true }, s.1)
      else if all_completed j.wait_for s.0.completed_jobs
      then (let (taken, s') = submit_now now choice j.job_id j.job_info s in
          if taken then (record s'.0 { current_job = none }, s'.1) else s')
      else s

  -- the next job off the queue becomes the current one
  unfoldable pub next_job : List QueuedJob → ExecutorBroker → ExecutorBroker
  next_job [] b = b
  next_job (j ∷ js) b = record b { queued_jobs = js; current_job = some j }

  unfoldable pub scheduler_step : ℕ → ℕ → ExecutorBroker × W → ExecutorBroker × W
  unfolding try_current next_job
  scheduler_step now choice s = if s.0.returned then s else elim s.0.current_job [
    | none ↦ (next_job s.0.queued_jobs s.0, s.1)
    | some j ↦ try_current now choice j s
  ]

module _ {W : Type 0} (job_delete : Executor → Str → W → Bool × W) where
  -- The first executor that has the job deletes it.
  unfoldable pub delete_from : List Executor → Str → W → Bool × W
  delete_from [] job_id w = (false, w)
  delete_from (e ∷ es) job_id w =
      let (deleted, w') = job_delete e job_id w in
      elim deleted [ true ↦ (true, w') | false ↦ delete_from es job_id w' ]

  unfoldable pub delete_job_from_executor : Str → ExecutorBroker × W → Bool × W
  unfolding delete_from
  delete_job_from_executor job_id s = delete_from (values s.0.executors) job_id s.1
