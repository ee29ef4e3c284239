-- ===== src/Rest/ExecutorNode/Start.antt =====
-- start_job of rec/rest/nodes/executor.py: globs, ten rounds of downloads, and the run of the job,
-- which is a parameter.
use ma_sinafadavi_claude.Rest.Job.Internal.{Internal}
use ma_sinafadavi_claude.Rest.Job.Files.{Broker, Host, Disk, resolve_glob_data, try_download_files}
use ma_sinafadavi_claude.Prelude.{
  List, if◌then◌else◌, ℕ, zero, suc, Bool, true, false, Result, Str, insert, Exec, after, ok, err,
  wasm_rest,
}

pub record Running (W : Type 0) : Type 0 where
  pub disk : Disk W
  pub jobs : List (Str × Internal)

module _ {W : Type 0} (broker : Broker W) (host : Host) (pause : W → W) where
  -- for _ in range(times): if job.try_download_files(self.broker): break, else sleep
  unfoldable pub download_rounds : ℕ → Internal → Exec (Disk W) Bool
  unfolding try_download_files
  download_rounds zero i d = (ok false, d)
  download_rounds (suc times) i d = after (try_download_files broker host i d) (λ b d'.
      let rest = download_rounds times i (record d' { world = pause d'.world }) in
      if b then (ok true, d') else rest)

  -- except WasmRestException as e: LOG.error(e.msg)
  unfoldable pub logged : Result (Unit {0}) → Result (Unit {0})
  logged (ok _) = ok tt
  logged (err (wasm_rest m)) = ok tt
  logged (err e) = err e

  -- the job info with the globs of its named data resolved
  unfoldable pub resolved : Internal → Disk W → Internal × Disk W
  unfolding resolve_glob_data
  resolved i d =
      let (named, w) = resolve_glob_data broker host i.named_data d.world in
      (record i { named_data = named }, record d { world = w })

  -- def start_job: what the downloads answer is not looked at
  unfoldable pub start_job :
      (Internal → Exec (Disk W) (Unit {0})) → Str → Internal → Exec (Running W) (Unit {0})
  unfolding resolved download_rounds logged
  start_job run job_id i s =
      let (i', d) = resolved i s.disk in
      let (r, d') = download_rounds 10 i' d in
      after (r, record s { disk = d' })
        (λ _ s'.
          let (q, d'') = run i' s'.disk in
          (logged q, record { disk = d''; jobs = insert job_id i' s'.jobs }))
