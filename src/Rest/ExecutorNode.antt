-- ===== src/Rest/ExecutorNode.antt =====
-- rec/rest/nodes/executor.py: how an executor finds a broker and stores the result of a job. What
-- the broker's methods and the sleeps do to the world are parameters.
pub mod Stored
pub mod Registered
pub mod Start
pub mod Started
use ma_sinafadavi_claude.Rest.DataBroker.{element}
use ma_sinafadavi_claude.Prelude.{
  List, ◌%◌, ◌∷◌, ◌+◌, ◌==◌, if◌then◌else◌, ℕ, zero, suc, Bool, true, false, Option, none, some, [],
  length, Exec, Str, after, ok, err, os_error,
}

-- for _ in range(times): the attempt, left when it succeeds, and otherwise the pause
unfoldable pub tries : {W : Type 0} → ℕ → (W → Bool × W) → (W → W) → W → Bool × W
tries zero attempt_it pause w = (false, w)
tries (suc times) attempt_it pause w =
    let (b, w') = attempt_it w in
    let rest = tries times attempt_it pause (pause w') in if b then (true, w') else rest

-- select_broker: a broker without executors, or else the choice of random, by number. The count of a
-- broker that does not answer is -1, and none here.
unfoldable pub without_executors : (Str → Option ℕ) → List Str → Option Str
without_executors count [] = none
without_executors count (b ∷ bs) =
    let rest = without_executors count bs in
    elim (count b) [ none ↦ rest | some n ↦ if n == 0 then some b else rest ]

unfoldable pub select_broker : (Str → Option ℕ) → ℕ → List Str → Option Str
unfolding without_executors element
select_broker count choice brokers = elim (without_executors count brokers) [
  | none ↦ element (choice % length brokers) brokers
  | some b ↦ some b
]

-- How registering ends: the executor is registered, or becomes a broker itself.
pub data Registration : Type 0 where
  registered : Str → Registration
  becomes_broker : Registration

-- if self.broker is None: ... else: ...
unfoldable pub on_search : {R : Type 0} → Option Str → R → (Str → R) → R
on_search none r f = r
on_search (some b) r f = f b

module _ {W : Type 0} (select : W → Option Str × W) (register : Str → W → Bool × W)
    (pause_long pause_short : W → W) where
  -- the loop of register_with_broker; a failed `register` also forgets the broker
  unfoldable pub register_with_broker : ℕ → ℕ → W → Option (Registration × W)
  unfolding tries on_search
  register_with_broker zero waited w = none
  register_with_broker (suc fuel) waited w =
      let (found, w1) = select w in
      let later = register_with_broker fuel (waited + 1) (pause_long w1) in
      on_search found (if waited == 10 then some (becomes_broker, w1) else later) (λ b.
        let (done, w2) = tries 10 (register b) pause_short w1 in
        let again = register_with_broker fuel waited w2 in
        if done then some (registered b, w2) else again)

-- what do_store_in_datastore calls for a job: store_named, send_result, and store_data with the
-- result and with the text of an error
pub record Delivery (W : Type 0) : Type 0 where
  pub store_named : W → Bool × W
  pub send_result : W → Bool × W
  pub store_result : W → Bool × W
  pub store_error : W → Bool × W
  pub job_done : W → W
  pub delete_job : W → W
  pub pause : W → W

module _ {W : Type 0} (ops : Delivery W) where
  -- ten attempts that each open the file of the result first
  unfoldable pub tries_file : Bool → (W → Bool × W) → Exec W Bool
  unfolding tries
  tries_file readable attempt_it w =
      if readable
      then (let (b, w') = tries 10 attempt_it ops.pause w in (ok b, w'))
      else (err os_error, w)

  unfoldable pub store_or_report : Bool → Exec W (Unit {0})
  unfolding tries_file
  store_or_report readable w =
      after (tries_file readable ops.store_result w)
        (λ b w'. (ok tt, if b then w' else (tries 10 ops.store_error ops.pause w').1))

  -- def do_store_in_datastore, by whether the job names a host for its result
  unfoldable pub do_store_in_datastore : Bool → Bool → Exec W (Unit {0})
  unfolding store_or_report
  do_store_in_datastore has_host readable w =
      let w1 = (tries 10 ops.store_named (λ v. v) w).1 in
      let stored = store_or_report readable w1 in
      if has_host
      then after (tries_file readable ops.send_result w1)
          (λ b w2. let later = store_or_report readable w2 in if b then (ok tt, w2) else later)
      else stored

  -- def store_job_in_datastore
  unfoldable pub store_job_in_datastore : Bool → Bool → Bool → Exec W (Unit {0})
  unfolding do_store_in_datastore
  store_job_in_datastore has_host readable delete w =
      after (do_store_in_datastore has_host readable w)
        (λ _ w'. (ok tt, if delete then ops.delete_job (ops.job_done w') else ops.job_done w'))
