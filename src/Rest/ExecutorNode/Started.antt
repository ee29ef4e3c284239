-- ===== src/Rest/ExecutorNode/Started.antt =====
-- What is on the disk when a job starts.
use ma_sinafadavi_claude.Rest.Job.{StrDict}
use ma_sinafadavi_claude.Rest.Job.Internal.{Internal}
use ma_sinafadavi_claude.Rest.ExecutorNode.Start.{download_rounds}
use ma_sinafadavi_claude.Rest.Job.Files.Downloaded.{try_download_files-Downloads, Downloads}
use ma_sinafadavi_claude.Rest.Job.Files.{Broker, Host, Disk, try_download_files}
use ma_sinafadavi_claude.Prelude.{
  ◌++◌, ◌∷◌, if◌then◌else◌, ℕ, zero, suc, refl, Bool, true, false, arith, after, Result, ok, err,
}

module _ {W : Type 0} (broker : Broker W) (host : Host) (pause : W → W) where
  next_round :
      (xs : StrDict) (s : Disk W) (r : Result Bool × Disk W) (f : Disk W → Result Bool × Disk W)
      → Downloads broker host xs s r
      → ((t : Disk W) → Downloads broker host xs t (f t))
      → Downloads broker host xs s
          (after r (λ b d. if b then (ok true, d) else f (record d { world = pause d.world })))
  next_round xs s (err e, t) f h k = (h.0, λ e. absurd (ground arith))
  next_round xs s (ok true, t) f h k = (h.0, λ e. h.1 refl)
  next_round xs s (ok false, t) f h k =
      let u = record t { world = pause t.world } in (λ p b e. (k u).0 p b (h.0 p b e), (k u).1)

  -- Any number of rounds of downloads changes no file that was there before, whatever the broker
  -- answers in each and also when one ends with an exception; and if they succeed, then the program,
  -- the job's own data and the named data are all in place.
  pub download_rounds-Downloads :
      (times : ℕ) (i : Internal) (s : Disk W)
      → Downloads broker host
          (i.wasm_bin ∷ (i.job_data ++ i.named_data))
          s
          (download_rounds broker host pause times i s)
  unfolding download_rounds
  download_rounds-Downloads zero i s = (λ p b e. e, λ e. absurd (ground arith))
  download_rounds-Downloads (suc times) i s =
      next_round (i.wasm_bin ∷ (i.job_data ++ i.named_data)) s (try_download_files broker host i s)
        (download_rounds broker host pause times i) (try_download_files-Downloads broker host i s)
        (download_rounds-Downloads times i)
