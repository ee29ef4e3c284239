-- ===== src/Rest/Client/Reruns.antt =====
-- A command that an execution plan runs twice, and one that it does not queue.
use ma_sinafadavi_claude.Rest.Client.Rewritten.{
  text_upload, transformed-wasm, member-text_upload, files_to_upload-text,
}
use ma_sinafadavi_claude.Rest.Job.Files.{Host}
use ma_sinafadavi_claude.Rest.Client.Results.{uploads_of}
use ma_sinafadavi_claude.Rest.Client.{
  Client, upload_and_submit, Broker, run_job, submit_uploaded, submit_job, upload_each, Disk,
  submit_transformed, note_answer,
}
use ma_sinafadavi_claude.Rest.Job.{
  job_data_name, transform_job_info_broker, StrDict, files_to_upload, exec_wasm,
}
use ma_sinafadavi_claude.Rest.Model.{JobInfo, named}
use ma_sinafadavi_claude.Prelude.{
  List, ◌≡◌, Bool, true, false, Option, Str, lookup, ◌∙◌, ap, none, some, arith, ok, ◌≢◌, Result,
  after, err, type_error, if◌then◌else◌, Exec, Error, after-eq-ok,
}

err_not_ok : {A : Type 0} (e : Error) (x : A) → err e ≢ ok x
err_not_ok e x h = ground arith

-- what the rest of a block never gives, the block never gives
after-not_ok :
    {S A : Type 0} {B : Type 0} (r : Result A × S) (f : A → Exec S B) (x : B)
    → ((a : A) (s : S) → (f a s).0 ≢ ok x)
    → (after {0, 0, 0} r f).0 ≢ ok x
after-not_ok (ok a, s) f x h = h a s
after-not_ok (err e, s) f x h = err_not_ok e x

module _ {W : Type 0} (broker : Broker W) (host : Host)
    (submit : JobInfo → Str → List Str → W → Option Str × W) (delete_job : Str → W → W) where
  run_uploads :
      (is_address : Str → Bool) (job_name id : Str) (j : JobInfo) (u : StrDict)
      (wait_for : Option (List Str)) (c : Client W)
      → files_to_upload j ≡ ok u
      → run_job broker host submit delete_job is_address job_name id wait_for (j, c)
        ≡ upload_and_submit broker host submit delete_job is_address job_name id u wait_for (j, c)
  unfolding run_job
  run_uploads is_address job_name id j u wait_for c e =
      ap
        (λ r.
          after {0, 0, 0} (r, (j, c))
            (λ uploads.
              upload_and_submit broker host submit delete_job is_address job_name id uploads
                wait_for))
        e

  transformed-info :
      (is_address : Str → Bool) (job_name id r : Str) (wait_for : Option (List Str))
      (j j' : JobInfo) (c c' : Client W)
      → submit_transformed broker host submit delete_job is_address job_name id wait_for (j, c)
        ≡ (ok (some r), (j', c'))
      → j ≡ j'
  unfolding submit_transformed note_answer
  transformed-info is_address job_name id r wait_for j j' c c' h =
      let (answer, w) = submit_job broker host submit delete_job j id wait_for c.disk.world in
      let (a, first, rest) =
        after-eq-ok (answer, (j, record c { disk = record c.disk { world = w } }))
          (note_answer broker host submit delete_job is_address job_name id) h in
      λ i. (rest i).1.0

  -- a run that gives a job leaves the job info as transform_job_info_broker has made it
  submitted-info :
      (is_address : Str → Bool) (job_name id r : Str) (wait_for : Option (List Str))
      (j j' : JobInfo) (c c' : Client W)
      → submit_uploaded broker host submit delete_job is_address job_name id wait_for (j, c)
        ≡ (ok (some r), (j', c'))
      → transform_job_info_broker id j ≡ (ok tt, j')
  unfolding submit_uploaded
  submitted-info is_address job_name id r wait_for j j' c c' h =
      let (t, j₁) = transform_job_info_broker id j in
      let (u, first, rest) =
        after-eq-ok (t, (j₁, c))
          (λ _. submit_transformed broker host submit delete_job is_address job_name id wait_for)
          h in
      λ i. ((first i).0, transformed-info is_address job_name id r wait_for j₁ j' c c' rest i)

  uploaded-info :
      (is_address : Str → Bool) (job_name id r : Str) (u : StrDict) (wait_for : Option (List Str))
      (j j' : JobInfo) (c c' : Client W)
      → upload_and_submit broker host submit delete_job is_address job_name id u wait_for (j, c)
        ≡ (ok (some r), (j', c'))
      → transform_job_info_broker id j ≡ (ok tt, j')
  unfolding upload_and_submit
  uploaded-info is_address job_name id r u wait_for j j' c c' h =
      by_upload (upload_each broker host submit delete_job id u c.disk) h
    where
      by_upload :
          (b : Bool × Disk W)
          → (if b.0
              then submit_uploaded broker host submit delete_job is_address job_name id wait_for
                  (j, record c { disk = b.1 })
              else (
                ok none,
                (j, record c { disk = record b.1 { world = delete_job id b.1.world } }),
              ))
            ≡ (ok (some r), (j', c'))
          → transform_job_info_broker id j ≡ (ok tt, j')
      by_upload (true, d) k =
          submitted-info is_address job_name id r wait_for j j' (record c { disk = d }) c' k
      by_upload (false, d) k = absurd (ground arith)

  run-info :
      (is_address : Str → Bool) (job_name id r : Str) (wait_for : Option (List Str))
      (j j' : JobInfo) (c c' : Client W)
      → run_job broker host submit delete_job is_address job_name id wait_for (j, c)
        ≡ (ok (some r), (j', c'))
      → transform_job_info_broker id j ≡ (ok tt, j')
  unfolding run_job
  run-info is_address job_name id r wait_for j j' c c' h =
      let (u, first, rest) =
        after-eq-ok (files_to_upload j, (j, c))
          (λ uploads.
            upload_and_submit broker host submit delete_job is_address job_name id uploads wait_for)
          h in
      uploaded-info is_address job_name id r u wait_for j j' c c' rest

  -- When run_job has run a command with a program that is a text and not a named one, and gave a job,
  -- the program of the job info that it was given is afterwards `exec.wasm` under the job's id. If the
  -- client has no file of that path, a second run with this job info starts no job, whatever the
  -- broker answers, and leaves the job info as it is.
  pub rerun_fails :
      (is_address : Str → Bool) (job_name job_name' id id' s r : Str) (j j' : JobInfo)
      (wait_for wait_for' : Option (List Str)) (c c₁ c₂ : Client W)
      → j.wasm_bin_is_named ≡ false
      → j.wasm_bin ≡ named s
      → run_job broker host submit delete_job is_address job_name id wait_for (j, c)
        ≡ (ok (some r), (j', c₁))
      → lookup (job_data_name id exec_wasm) c₂.disk.files ≡ none
      → (j'.wasm_bin ≡ named (job_data_name id exec_wasm))
        × (c₃ : Client W) × (run_job broker host submit delete_job is_address job_name' id'
              wait_for'
              (j', c₂)
            ≡ (ok none, (j', c₃)))
  rerun_fails is_address job_name job_name' id id' s r j j' wait_for wait_for' c c₁ c₂ b e first m =
      let k = run-info is_address job_name id r wait_for j j' c c₁ first in
      let (w, n) = transformed-wasm id s j j' b e k in
      let x = job_data_name id exec_wasm in
      let (c₃, h) =
        uploads_of broker host submit delete_job is_address job_name' id' x j' (text_upload x j')
          wait_for' c₂ (member-text_upload x j') m in
      (
        w,
        c₃,
        run_uploads is_address job_name' id' j' (text_upload x j') wait_for' c₂
              (files_to_upload-text x j' n w)
            ∙ h,
      )

  not_submitted :
      (is_address : Str → Bool) (job_name id r : Str) (j : JobInfo) (c : Client W)
      → (submit_uploaded broker host submit delete_job is_address job_name id none (j, c)).0
        ≢ ok (some r)
  unfolding submit_uploaded submit_transformed submit_job
  not_submitted is_address job_name id r j c =
      let (e, j') = transform_job_info_broker id j in
      after-not_ok (e, (j', c)) (λ _ t. (err type_error, t)) (some r)
        (λ _ t. err_not_ok type_error (some r))

  not_uploaded :
      (is_address : Str → Bool) (job_name id r : Str) (uploads : StrDict) (s : JobInfo × Client W)
      → (upload_and_submit broker host submit delete_job is_address job_name id uploads none s).0
        ≢ ok (some r)
  unfolding upload_and_submit
  not_uploaded is_address job_name id r uploads (j, c) =
      by_upload (upload_each broker host submit delete_job id uploads c.disk)
    where
      by_upload :
          (b : Bool × Disk W)
          → (if b.0
              then submit_uploaded broker host submit delete_job is_address job_name id none
                  (j, record c { disk = b.1 })
              else (
                ok none,
                (j, record c { disk = record b.1 { world = delete_job id b.1.world } }),
              )).0
            ≢ ok (some r)
      by_upload (true, d) h = not_submitted is_address job_name id r j (record c { disk = d }) h
      by_upload (false, d) h = ground arith

  -- A command that is not to be queued never starts: without a set of jobs to wait for, run_job raises
  -- an exception or gives None, whatever the broker answers.
  pub unqueued_never_starts :
      (is_address : Str → Bool) (job_name id r : Str) (j : JobInfo) (c : Client W)
      → (run_job broker host submit delete_job is_address job_name id none (j, c)).0 ≢ ok (some r)
  unfolding run_job
  unqueued_never_starts is_address job_name id r j c =
      after-not_ok (files_to_upload j, (j, c))
        (λ uploads.
          upload_and_submit broker host submit delete_job is_address job_name id uploads none)
        (some r) (λ uploads. not_uploaded is_address job_name id r uploads)
