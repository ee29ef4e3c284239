-- ===== src/Rest/ExecutorBroker/Scheduler.antt =====
-- The order in which the broker's scheduler hands jobs out.
use ma_sinafadavi_claude.Rest.ExecutorBroker.States.{
  submit_job-state, heartbeat_executor-state, pruned, offered, beaten,
}
use ma_sinafadavi_claude.Prelude.{
  ◌∙◌, ℕ, Bool, true, false, none, some, List, [], ◌∷◌, Str, member, str_eq, str_eq_iff, ◌≡◌, refl,
  arith, values, ◌++◌, ap, append_assoc, sym, append-nil,
}
use ma_sinafadavi_claude.Rest.ExecutorBroker.Events.{
  Event, pass, submitted, heartbeat, done, stopped, past_queue, happen, happen_all,
}
use ma_sinafadavi_claude.Rest.Model.{JobInfo}
use ma_sinafadavi_claude.Rest.ExecutorBroker.{
  Executor, QueuedJob, ExecutorBroker, all_completed, job_done, queue_job, scheduler_step, stop,
  heartbeat_executor, submit_job, choose, capable, addressed,
}

-- no event reports the job as done
abbrev pub NotDone : Str → List Event → Type 0
NotDone x [] = Unit
NotDone x (done job_id ∷ es) = (str_eq job_id x ≡ false) × NotDone x es
NotDone x (_ ∷ es) = NotDone x es

waits :
    (x : Str) (ws cs : List Str)
    → member x ws ≡ true
    → member x cs ≡ false
    → all_completed ws cs ≡ false
unfolding all_completed member
waits x [] cs h k = absurd (ground arith)
waits x (w ∷ ws) cs h k = ground (arith, str_eq_iff w x, waits x ws cs)

module _ {W : Type 0} (submit : Executor → Str → JobInfo → W → Bool × W)
    (on_job_started : Str → JobInfo → W → W) (second : ℕ) where
  -- the job is current and waits for x, which is not reported as done, and the old jobs are at the
  -- front of the queue
  record IsBlocked (x : Str) (j : QueuedJob) (old : List QueuedJob) (b : ExecutorBroker)
      : Type 0 where
    pub current : b.current_job ≡ some j
    pub waits_for : member x j.wait_for ≡ true
    pub missing : member x b.completed_jobs ≡ false
    pub more : List QueuedJob
    pub queue : b.queued_jobs ≡ old ++ more

  pass_waits :
      (now choice : ℕ) (x : Str) (j : QueuedJob) (old : List QueuedJob) (s : ExecutorBroker × W)
      → IsBlocked x j old s.0
      → ((scheduler_step submit on_job_started second now choice s).1 ≡ s.1)
        × ((scheduler_step submit on_job_started second now choice s).0.executors ≡ s.0.executors)
        × IsBlocked x j old (scheduler_step submit on_job_started second now choice s).0
  unfolding scheduler_step
  pass_waits now choice x j old s k =
      let w = waits x j.wait_for s.0.completed_jobs k.waits_for k.missing in
      let c = k.current in
      (
        ground (arith, c, w),
        ground (arith, c, w),
        record {
          current = ground (arith, c, w);
          waits_for = k.waits_for;
          missing = ground (arith, c, w, k.missing);
          more = k.more;
          queue = ground (arith, c, w, k.queue);
        },
      )

  queue_job-IsBlocked :
      (x job_id : Str) (j : QueuedJob) (old : List QueuedJob) (info : JobInfo) (wait_for : List Str)
      (b : ExecutorBroker)
      → IsBlocked x j old b
      → IsBlocked x j old (queue_job job_id info (some wait_for) b)
  unfolding queue_job
  queue_job-IsBlocked x job_id j old info wait_for b k =
      let new : QueuedJob = record { job_id = job_id; job_info = info; wait_for = wait_for } in
      record {
        current = k.current;
        waits_for = k.waits_for;
        missing = k.missing;
        more = k.more ++ new ∷ [];
        queue = ap (λ q. q ++ new ∷ []) k.queue ∙ append_assoc old k.more (new ∷ []);
      }

  job_done-IsBlocked :
      (x job_id : Str) (j : QueuedJob) (old : List QueuedJob) (b : ExecutorBroker)
      → str_eq job_id x ≡ false
      → IsBlocked x j old b
      → IsBlocked x j old (job_done job_id b)
  unfolding job_done member
  job_done-IsBlocked x job_id j old b h k = record {
    current = ground (arith, k.current);
    waits_for = k.waits_for;
    missing = ground (arith, k.missing, h);
    more = k.more;
    queue = ground (arith, k.queue);
  }

  job_done-executors : (x : Str) (b : ExecutorBroker) → (job_done x b).executors ≡ b.executors
  unfolding job_done
  job_done-executors x b = ground arith

  executors-IsBlocked :
      (x : Str) (j : QueuedJob) (old : List QueuedJob) (es : List (Str × Executor))
      (b b' : ExecutorBroker)
      → b' ≡ record b { executors = es }
      → IsBlocked x j old b
      → IsBlocked x j old b'
  executors-IsBlocked x j old es b b' e k = record {
    current = ap (λ (c : ExecutorBroker). c.current_job) e ∙ k.current;
    waits_for = k.waits_for;
    missing = ap (λ (c : ExecutorBroker). member x c.completed_jobs) e ∙ k.missing;
    more = k.more;
    queue = ap (λ (c : ExecutorBroker). c.queued_jobs) e ∙ k.queue;
  }

  -- a submission without a set of jobs to wait for, in two states with the same executors and the
  -- same world outside
  submitted_alike :
      (now choice : ℕ) (client job_id : Str) (info : JobInfo) (s t : ExecutorBroker × W)
      → s.0.executors ≡ t.0.executors
      → s.1 ≡ t.1
      → ((happen submit on_job_started second
            (submitted now choice client job_id info none)
            s).0.executors
          ≡ (happen submit on_job_started second
              (submitted now choice client job_id info none)
              t).0.executors)
        × ((happen submit on_job_started second (submitted now choice client job_id info none) s).1
            ≡ (happen submit on_job_started second
                (submitted now choice client job_id info none)
                t).1)
  unfolding happen
  submitted_alike now choice client job_id info (b, w) (c, v) e h =
      let p = submit_job-state submit on_job_started second now choice client job_id info b w in
      let q = submit_job-state submit on_job_started second now choice client job_id info c v in
      (
        ap (λ (r : ExecutorBroker × W). r.0.executors) p
            ∙ (ap (pruned second now) e ∙ sym (ap (λ (r : ExecutorBroker × W). r.0.executors) q)),
        ap (λ (r : ExecutorBroker × W). r.1) p
            ∙ ((λ i.
                  offered submit on_job_started second
                    (choose choice (capable info.capabilities (values (pruned second now (e i)))))
                    job_id (addressed submit on_job_started second client info) (h i))
                ∙ sym (ap (λ (r : ExecutorBroker × W). r.1) q)),
      )

  happen_all-alike :
      (x : Str) (j : QueuedJob) (old : List QueuedJob) (es : List Event) (s t : ExecutorBroker × W)
      → IsBlocked x j old s.0
      → s.0.executors ≡ t.0.executors
      → s.1 ≡ t.1
      → NotDone x es
      → ((happen_all submit on_job_started second es s).1
          ≡ (happen_all submit on_job_started second (past_queue es) t).1)
        × IsBlocked x j old (happen_all submit on_job_started second es s).0
  unfolding happen_all past_queue
  happen_all-alike x j old [] s t k e h n = (h, k)
  happen_all-alike x j old (pass now choice ∷ es) s t k e h n =
      let (world, executors, k') = pass_waits now choice x j old s k in
      happen_all-alike x j old es (scheduler_step submit on_job_started second now choice s) t k'
        (executors ∙ e) (world ∙ h) n
  happen_all-alike x j old (submitted now choice client job_id info none ∷ es) s t k e h n =
      let (executors, world) = submitted_alike now choice client job_id info s t e h in
      happen_all-alike x j old es
        (happen submit on_job_started second (submitted now choice client job_id info none) s)
        (happen submit on_job_started second (submitted now choice client job_id info none) t)
        (unfold happen in
          executors-IsBlocked x j old (pruned second now s.0.executors) s.0 _
            (ap (λ (r : ExecutorBroker × W). r.0)
              (submit_job-state submit on_job_started second now choice client job_id info s.0 s.1))
            k)
        executors world n
  happen_all-alike x j old (submitted now choice client job_id info (some wait_for) ∷ es) s t k e h
        n =
      let info' = addressed submit on_job_started second client info in
      happen_all-alike x j old es
        (happen submit on_job_started second
          (submitted now choice client job_id info (some wait_for)) s)
        t (unfold happen submit_job in queue_job-IsBlocked x job_id j old info' wait_for s.0 k)
        (unfold happen submit_job queue_job in e) (unfold happen submit_job in h) n
  happen_all-alike x j old (heartbeat exec_id caps now ∷ es) s t k e h n =
      let p = heartbeat_executor-state exec_id caps now s.0 in
      let q = heartbeat_executor-state exec_id caps now t.0 in
      happen_all-alike x j old es ((heartbeat_executor exec_id caps now s.0).1, s.1)
        ((heartbeat_executor exec_id caps now t.0).1, t.1)
        (executors-IsBlocked x j old (beaten exec_id caps now s.0.executors) s.0 _ p k)
        (ap (λ (b : ExecutorBroker). b.executors) p
          ∙ (ap (beaten exec_id caps now) e ∙ sym (ap (λ (b : ExecutorBroker). b.executors) q)))
        h n
  happen_all-alike x j old (done job_id ∷ es) s t k e h n =
      happen_all-alike x j old es (job_done job_id s.0, s.1) t
        (job_done-IsBlocked x job_id j old s.0 n.0 k) (job_done-executors job_id s.0 ∙ e) h n.1
  happen_all-alike x j old (stopped ∷ es) s t k e h n =
      happen_all-alike x j old es (stop s.0, s.1) t
        (unfold stop in
          record {
            current = k.current;
            waits_for = k.waits_for;
            missing = k.missing;
            more = k.more;
            queue = k.queue;
          })
        (unfold stop in e) h n

  -- The queue is blocked by its head. While the scheduler's current job waits for a job that is not
  -- reported as done, and whatever passes, submissions, heartbeats, reports of other jobs and stops
  -- come: that job stays current, no job is taken off the queue, and the outside world is left as
  -- the heartbeats and the submissions without a set of jobs to wait for leave it by themselves.
  pub happen_all-blocked :
      (es : List Event) (s : ExecutorBroker × W) (j : QueuedJob) (x : Str)
      → s.0.current_job ≡ some j
      → member x j.wait_for ≡ true
      → member x s.0.completed_jobs ≡ false
      → NotDone x es
      → ((happen_all submit on_job_started second es s).0.current_job ≡ some j)
        × ((more : List QueuedJob) × ((happen_all submit on_job_started second es s).0.queued_jobs
              ≡ s.0.queued_jobs ++ more))
        × ((happen_all submit on_job_started second es s).1
            ≡ (happen_all submit on_job_started second (past_queue es) s).1)
  happen_all-blocked es s j x c m n h =
      let start : IsBlocked x j s.0.queued_jobs s.0 = record {
        current = c;
        waits_for = m;
        missing = n;
        more = [];
        queue = sym (append-nil s.0.queued_jobs);
      } in
      let (world, k) = happen_all-alike x j s.0.queued_jobs es s s start refl refl h in
      (k.current, (k.more, k.queue), world)
