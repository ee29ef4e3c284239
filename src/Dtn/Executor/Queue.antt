-- ===== src/Dtn/Executor/Queue.antt =====
-- The queue of pending jobs.
use ma_sinafadavi_claude.Prelude.{
  ℕ, suc, ◌+◌, true, false, none, some, List, [], ◌∷◌, ◌++◌, length, ◌≡◌, refl, arith, append_assoc,
  append-nil, Bool-cases, inl, inr, length-append, ◌⊎◌, ap,
}
use ma_sinafadavi_claude.Dtn.Storage.{Storage}
use ma_sinafadavi_claude.Dtn.Job.{Capabilities, JobInfo}
use ma_sinafadavi_claude.Dtn.Executor.{
  Executor, is_runnable, any_runnable, has_runnable_job, rotate, pop_next_runnable_job,
}
use native.Mathlib.Nat.{zero-add}

module _ (system : Capabilities) (s : Storage) where
  -- no job of the list can run
  abbrev pub NoneRunnable : List JobInfo → Type 0
  NoneRunnable [] = Unit
  NoneRunnable (j ∷ js) = (is_runnable system s j ≡ false) × NoneRunnable js

  rotate-none :
      (js ks : List JobInfo)
      → NoneRunnable js
      → rotate system s (length js) (js ++ ks) ≡ (none, ks ++ js)
  unfolding rotate
  rotate-none [] ks h = rw append-nil
  rotate-none (j ∷ js) ks h =
      rw (h.0, append_assoc, rotate-none js (ks ++ j ∷ []) h.1, append_assoc)

  rotate-some :
      (before after more : List JobInfo) (j : JobInfo) (k : ℕ)
      → NoneRunnable before
      → is_runnable system s j ≡ true
      → rotate system s (length before + suc k) (before ++ (j ∷ (after ++ more)))
        ≡ (some j, after ++ (more ++ before))
  unfolding rotate
  rotate-some [] after more j k h r = rw (zero-add, r, append-nil)
  rotate-some (b ∷ before) after more j k h r =
      let e : suc (length before) + suc k ≡ suc (length before + suc k) = omega arith in
      rw (e, h.0)
        (simp append_assoc
          (simp append_assoc at (rotate-some before after (more ++ b ∷ []) j k h.1 r)))

  rotate_first :
      (js before after : List JobInfo) (j : JobInfo)
      → js ≡ before ++ (j ∷ after)
      → NoneRunnable before
      → is_runnable system s j ≡ true
      → rotate system s (length js) js ≡ (some j, after ++ before)
  rotate_first js before after j p h r =
      rw (p, length-append before (j ∷ after))
        (rw append-nil at (rotate-some before after [] j (length after) h r))

  rotate_all : (js : List JobInfo) → NoneRunnable js → rotate system s (length js) js ≡ (none, js)
  rotate_all js h = rw append-nil at (rotate-none js [] h)

  -- The list split at its first runnable job, if there is one.
  find_runnable :
      (js : List JobInfo)
      → (NoneRunnable js × (any_runnable system s js ≡ false))
        ⊎ ((before after : List JobInfo) × (j : JobInfo) × (js ≡ before ++ (j ∷ after))
            × NoneRunnable before
            × (is_runnable system s j ≡ true)
            × (any_runnable system s js ≡ true))
  unfolding any_runnable
  find_runnable [] = inl (tt, refl)
  find_runnable (j ∷ js) = elim (Bool-cases (is_runnable system s j)) [
    | inl r ↦ inr ([], js, j, refl, tt, r, rw r)
    | inr r ↦ elim (find_runnable js) [
      | inl (h, e) ↦ inl ((r, h), rw (r, e))
      | inr (before, after, k, p, h, q, e) ↦
          inr (j ∷ before, after, k, ap (λ l. j ∷ l) p, (r, h), q, rw (r, e))
    ]
  ]

-- Scheduling is first in, first out among the jobs that can run: the first of them is returned, and
-- the jobs before it, of which none can run, go behind the others in their order.
pub pop_first_runnable :
    (system : Capabilities) (e : Executor) (before after : List JobInfo) (j : JobInfo)
    → e.pending_jobs ≡ before ++ (j ∷ after)
    → NoneRunnable system e.storage before
    → is_runnable system e.storage j ≡ true
    → pop_next_runnable_job system e ≡ (some j, record e { pending_jobs = after ++ before })
unfolding pop_next_runnable_job
pop_first_runnable system e before after j p h r =
    rw (rotate_first system e.storage e.pending_jobs before after j p h r)

pop_none :
    (system : Capabilities) (e : Executor)
    → NoneRunnable system e.storage e.pending_jobs
    → pop_next_runnable_job system e ≡ (none, e)
unfolding pop_next_runnable_job
pop_none system e h = rw (rotate_all system e.storage e.pending_jobs h)

-- The scheduler's wait and its pop agree: while nothing changes between them, the predicate holds
-- exactly if a job is popped, and where it does not hold the queue stays as it was.
pub has_runnable_job-pop :
    (system : Capabilities) (e : Executor)
    → ((has_runnable_job system e ≡ false) × (pop_next_runnable_job system e ≡ (none, e)))
      ⊎ ((has_runnable_job system e ≡ true)
          × ((j : JobInfo) × ((pop_next_runnable_job system e).0 ≡ some j)
              × (is_runnable system e.storage j ≡ true)))
unfolding has_runnable_job
has_runnable_job-pop system e = elim (find_runnable system e.storage e.pending_jobs) [
  | inl (h, q) ↦ inl (q, pop_none system e h)
  | inr (before, after, j, p, h, r, q) ↦
      inr (q, (j, rw (pop_first_runnable system e before after j p h r), r))
]
