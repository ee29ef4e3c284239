-- ===== src/Rest/Client.antt =====
-- The job handling of rec/rest/nodes/client.py. The broker is a parameter that steps a world of its
-- own, as in the files of an executor's job; a job's id is a text that is given, and whether the
-- address for the result is one of the client's is an argument.
pub mod Results
pub mod Rewritten
pub mod Reruns
pub mod Stops
use ma_sinafadavi_claude.Rest.Job.Files.{Host, try_store_named_data, Disk, Broker}
use ma_sinafadavi_claude.Rest.Job.{
  StrDict, files_to_upload, transform_job_info_broker, job_data_name,
}
use ma_sinafadavi_claude.Rest.Model.{JobInfo}
use ma_sinafadavi_claude.Prelude.{
  List, ◌∷◌, ◌&&◌, ◌||◌, if◌then◌else◌, Bool, true, false, not, Option, none, some, [], Exec,
  str_eq, lookup, insert, codes, Result, is_empty, remove, Str, err, http_error, ok, type_error,
  after,
}

pub record Client (W : Type 0) : Type 0 where
  pub disk : Disk W
  pub pending_results : StrDict
  pub all_queued : Bool
  pub stopped : Bool

module _ {W : Type 0} (broker : Broker W) (host : Host)
    (submit : JobInfo → Str → List Str → W → Option Str × W) (delete_job : Str → W → W) where
  -- for path, name in to_upload.items(): upload, or stop at the first that fails
  unfoldable pub upload_each : Str → StrDict → Disk W → Bool × Disk W
  unfolding try_store_named_data
  upload_each id [] s = (true, s)
  upload_each id ((path, name) ∷ entries) s =
      let (b, s') = try_store_named_data broker host (job_data_name id name) path s in
      let rest = upload_each id entries s' in if b then rest else (false, s')

  -- Broker.submit_job, whose text is built from `wait_for` without a test for None
  unfoldable pub submit_job : JobInfo → Str → Option (List Str) → W → Result (Option Str) × W
  submit_job j id none w = (err type_error, w)
  submit_job j id (some wait_for) w = let (r, w') = submit j id wait_for w in (ok r, w')

  -- the end of run_job, with the broker's answer
  unfoldable pub note_pending : Bool → Str → Str → Option Str → Client W → Option Str × Client W
  note_pending is_this job_name id none c = (none, c)
  note_pending is_this job_name id (some answer) c =
      if str_eq answer id
      then (
        some id,
        if is_this then record c { pending_results = insert id job_name c.pending_results } else c,
      )
      else (none, c)

  -- whether the results are for the client itself, and the broker's answer
  unfoldable pub note_answer :
      (Str → Bool) → Str → Str → Option Str → Exec (JobInfo × Client W) (Option Str)
  unfolding note_pending
  note_answer is_address job_name id answer (j, c) =
      let host = j.result_addr.host in
      let is_this = is_address host || str_eq host (codes "this") in
      let (res, c') = note_pending is_this job_name id answer c in (ok res, (j, c'))

  -- run_job after the rewriting of the job info
  unfoldable pub submit_transformed :
      (Str → Bool) → Str → Str → Option (List Str) → Exec (JobInfo × Client W) (Option Str)
  unfolding submit_job note_answer
  submit_transformed is_address job_name id wait_for (j, c) =
      let (answer, w) = submit_job j id wait_for c.disk.world in
      after (answer, (j, record c { disk = record c.disk { world = w } }))
        (note_answer is_address job_name id)

  -- run_job after the uploads, on the job info of the plan and the client
  unfoldable pub submit_uploaded :
      (Str → Bool) → Str → Str → Option (List Str) → Exec (JobInfo × Client W) (Option Str)
  unfolding transform_job_info_broker submit_transformed
  submit_uploaded is_address job_name id wait_for (j, c) =
      let (r, j') = transform_job_info_broker id j in
      after (r, (j', c)) (λ _. submit_transformed is_address job_name id wait_for)

  -- run_job after the list of uploads
  unfoldable pub upload_and_submit :
      (Str → Bool)
      → Str
      → Str
      → StrDict
      → Option (List Str)
      → Exec (JobInfo × Client W) (Option Str)
  unfolding upload_each submit_uploaded
  upload_and_submit is_address job_name id uploads wait_for (j, c) =
      let (b, d) = upload_each id uploads c.disk in
      if b
      then submit_uploaded is_address job_name id wait_for (j, record c { disk = d })
      else (ok none, (j, record c { disk = record d { world = delete_job id d.world } }))

  -- def run_job: the state is the job info of the plan, which transform_job_info_broker rewrites in
  -- place, and the client
  unfoldable pub run_job :
      (Str → Bool) → Str → Str → Option (List Str) → Exec (JobInfo × Client W) (Option Str)
  unfolding files_to_upload upload_and_submit
  run_job is_address job_name id wait_for (j, c) =
      after (files_to_upload j, (j, c))
        (λ uploads. upload_and_submit is_address job_name id uploads wait_for)

-- the result of a job with the name that the client remembers, or of none; `stored` is the answer of
-- put_file
unfoldable pub take_result : {W : Type 0} → Bool → Str → Option Str → Exec (Client W) (Unit {0})
take_result stored id none c = (err (http_error (codes "Result not expected")), c)
take_result false id (some job_name) c = (err (http_error (codes "File could not be stored")), c)
take_result true id (some job_name) c =
    let left = remove id c.pending_results in
    (
      ok tt,
      record c {
        pending_results = left;
        stopped = if c.all_queued && is_empty left then true else c.stopped;
      },
    )

-- the endpoint receive_result
unfoldable pub receive_result : {W : Type 0} → Bool → Str → Exec (Client W) (Unit {0})
unfolding take_result
receive_result stored id c = take_result stored id (lookup id c.pending_results) c

-- the end of run: all jobs are submitted
unfoldable pub all_submitted : {W : Type 0} → Client W → Client W
all_submitted c =
    if is_empty c.pending_results
    then record c { stopped = true }
    else record c { all_queued = true }
