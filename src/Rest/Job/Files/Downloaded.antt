-- ===== src/Rest/Job/Files/Downloaded.antt =====
-- What the download of a job's files leaves on the disk.
use ma_sinafadavi_claude.Rest.Job.Internal.{Internal}
use ma_sinafadavi_claude.Rest.Job.Files.{
  Host, Broker, Disk, exists, downloaded, try_download_file, try_download_files, try_download_each,
}
use ma_sinafadavi_claude.Prelude.{
  ◌≡◌, ◌∷◌, ◌||◌, refl, Bool, true, false, Option, none, some, [], arith, lookup, Str, str_eq_self,
  lookup-insert, lookup-remove, insert, Bytes, Result, str_eq_iff, ok, ◌++◌, if◌then◌else◌, after,
  err, os_error,
}
use ma_sinafadavi_claude.Rest.Job.{StrDict}

module _ {W : Type 0} (broker : Broker W) (host : Host) where
  -- the paths of a dict are there
  abbrev pub AllThere : Disk W → StrDict → Type 0
  AllThere s [] = Unit
  AllThere s ((name, path) ∷ entries) = (exists broker host path s ≡ true) × AllThere s entries

  -- every file that was there is there with its content
  abbrev pub KeepsFiles : Disk W → Disk W → Type 0
  KeepsFiles s t =
      (path : Str) (bytes : Bytes)
      → lookup path s.files ≡ some bytes
      → lookup path t.files ≡ some bytes

  -- a call keeps the files, and leaves what it was asked for if it says so
  abbrev pub Downloads : StrDict → Disk W → Result Bool × Disk W → Type 0
  Downloads entries s r = KeepsFiles s r.1 × (r.0 ≡ ok true → AllThere r.1 entries)

  exists-KeepsFiles :
      (path : Str) (s t : Disk W)
      → KeepsFiles s t
      → exists broker host path s ≡ true
      → exists broker host path t ≡ true
  unfolding exists
  exists-KeepsFiles path s t k h = go (lookup path s.files) refl h
    where
      go :
          (o : Option Bytes)
          → lookup path s.files ≡ o
          → (host.is_dir path || (elim o [ none ↦ false | some b ↦ true ])) ≡ true
          → (host.is_dir path || (elim (lookup path t.files) [ none ↦ false | some b ↦ true ]))
            ≡ true
      go none e i = ground arith
      go (some b) e i = rw (k path b e) (ground arith)

  AllThere-KeepsFiles :
      (entries : StrDict) (s t : Disk W) → KeepsFiles s t → AllThere s entries → AllThere t entries
  AllThere-KeepsFiles [] s t k h = tt
  AllThere-KeepsFiles ((name, path) ∷ entries) s t k h =
      (exists-KeepsFiles path s t k h.0, AllThere-KeepsFiles entries s t k h.1)

  downloaded-Downloads :
      (name path : Str) (s : Disk W) (r : (Bytes × Bool) × W)
      → exists broker host path s ≡ false
      → Downloads ((name, path) ∷ []) s (downloaded broker host path r s.files)
  unfolding downloaded exists
  downloaded-Downloads name path s ((bytes, true), w) h = (
    λ p b e. rw (lookup-insert path p bytes s.files) (ground (arith, str_eq_iff path p)),
    λ _. (rw (lookup-insert path path bytes s.files, str_eq_self path) (ground arith), tt),
  )
  downloaded-Downloads name path s ((bytes, false), w) h = (
    λ p b e. ground (
      arith,
      str_eq_iff path p,
      lookup-insert path p bytes s.files,
      lookup-remove path p (insert path bytes s.files),
    ),
    λ e. absurd (ground arith),
  )

  file_cases :
      (name path : Str) (s : Disk W) (there opens : Bool)
      → exists broker host path s ≡ there
      → Downloads ((name, path) ∷ []) s (
          if there
          then (ok true, s)
          else if opens
          then downloaded broker host path (broker.get_data name s.world) s.files
          else (err os_error, s))
  file_cases name path s true opens h = (λ p b e. e, λ _. (h, tt))
  file_cases name path s false true h =
      downloaded-Downloads name path s (broker.get_data name s.world) h
  file_cases name path s false false h = (λ p b e. e, λ e. absurd (ground arith))

  try_download_file-Downloads :
      (name path : Str) (s : Disk W)
      → Downloads ((name, path) ∷ []) s (try_download_file broker host name path s)
  unfolding try_download_file
  try_download_file-Downloads name path s =
      file_cases name path s (exists broker host path s) (host.can_open path) refl

  AllThere-append :
      (s : Disk W) (xs ys : StrDict) → AllThere s xs → AllThere s ys → AllThere s (xs ++ ys)
  AllThere-append s [] ys h k = k
  AllThere-append s (x ∷ xs) ys h k = (h.0, AllThere-append s xs ys h.1 k)

  -- one download and, if it succeeds, the next
  Downloads-after :
      (xs ys : StrDict) (s : Disk W) (r : Result Bool × Disk W) (f : Disk W → Result Bool × Disk W)
      → Downloads xs s r
      → ((t : Disk W) → Downloads ys t (f t))
      → Downloads (xs ++ ys) s (after r (λ b t. if b then f t else (ok false, t)))
  Downloads-after xs ys s (err e, t) f h k = (h.0, λ e. absurd (ground arith))
  Downloads-after xs ys s (ok false, t) f h k = (h.0, λ e. absurd (ground arith))
  Downloads-after xs ys s (ok true, t) f h k = (
    λ p b e. (k t).0 p b (h.0 p b e),
    λ e.
        AllThere-append (f t).1 xs ys (AllThere-KeepsFiles xs t (f t).1 (k t).0 (h.1 refl))
          ((k t).1 e),
  )

  try_download_each-Downloads :
      (entries : StrDict) (s : Disk W)
      → Downloads entries s (try_download_each broker host entries s)
  unfolding try_download_each
  try_download_each-Downloads [] s = (λ p b e. e, λ _. tt)
  try_download_each-Downloads ((name, path) ∷ entries) s =
      Downloads-after ((name, path) ∷ []) entries s (try_download_file broker host name path s)
        (try_download_each broker host entries) (try_download_file-Downloads name path s)
        (try_download_each-Downloads entries)

  -- A round of downloads changes no file that was there before it, whatever the broker answers and
  -- also when it ends with an exception; and if it succeeds, then the program, the job's own data and
  -- the named data are all in place.
  pub try_download_files-Downloads :
      (i : Internal) (s : Disk W)
      → Downloads (i.wasm_bin ∷ (i.job_data ++ i.named_data)) s (try_download_files broker host i s)
  unfolding try_download_files
  try_download_files-Downloads i s =
      Downloads-after (i.wasm_bin ∷ []) (i.job_data ++ i.named_data) s
        (try_download_file broker host i.wasm_bin.0 i.wasm_bin.1 s)
        (λ t.
          after (try_download_each broker host i.job_data t)
            (λ c u. if c then try_download_each broker host i.named_data u else (ok false, u)))
        (try_download_file-Downloads i.wasm_bin.0 i.wasm_bin.1 s)
        (λ t.
          Downloads-after i.job_data i.named_data t (try_download_each broker host i.job_data t)
            (try_download_each broker host i.named_data) (try_download_each-Downloads i.job_data t)
            (try_download_each-Downloads i.named_data))
