-- ===== src/Tests/Executors.antt =====
-- Runs of rec/rest/nodes/executor.py.
use ma_sinafadavi_claude.Prelude.{
  ◌≡◌, ◌+◌, if◌then◌else◌, ℕ, refl, true, false, none, some, leb, ok,
}
use ma_sinafadavi_claude.Rest.ExecutorNode.{
  Delivery, register_with_broker, becomes_broker, store_job_in_datastore, tries,
}
use ma_sinafadavi_claude.Rest.ExecutorNode.Registered.{searched, register_with_broker-none}
use ma_sinafadavi_claude.Rest.ExecutorNode.Stored.{
  failed_times, before_store, store_job_in_datastore-stored, after_named,
}

-- the world counts the calls; the datastore takes the result at the thirteenth
abbrev ops : Delivery ℕ
ops = record {
  store_named = λ w. (true, w);
  send_result = λ w. (false, w + 1);
  store_result = λ w. (leb 12 w, w + 1);
  store_error = λ w. (true, w + 1);
  job_done = λ w. w;
  delete_job = λ w. w;
  pause = λ w. w;
}

store_job_in_datastore-stored_example : store_job_in_datastore ops true true false 0 ≡ (
  ok tt,
  if false
      then ops.delete_job (
          ops.job_done
            (ops.store_result
              (failed_times ops.store_result ops.pause 2 (before_store ops true 0))).1)
      else ops.job_done
          (ops.store_result
            (failed_times ops.store_result ops.pause 2 (before_store ops true 0))).1,
)
unfolding failed_times tries before_store
store_job_in_datastore-stored_example =
    store_job_in_datastore-stored ops true false 2 7 0 refl
      (unfold after_named in
        (refl, (refl, (refl, (refl, (refl, (refl, (refl, (refl, (refl, (refl, tt)))))))))))
      (unfold before_store in (refl, (refl, tt))) (unfold failed_times in refl)

register_with_broker-none_example :
    register_with_broker (λ w. (none, w + 1)) (λ b w. (true, w)) (λ w. w) (λ w. w) (11 + 0) 0 0
    ≡ some (becomes_broker, searched (λ w. (none, w + 1)) (λ b w. (true, w)) (λ w. w) (λ w. w) 10 0)
register_with_broker-none_example =
    register_with_broker-none (λ w. (none, w + 1)) (λ b w. (true, w)) (λ w. w) (λ w. w) 0 0
      (refl, (refl, (refl, (refl, (refl, (refl, (refl, (refl, (refl, (refl, refl))))))))))
