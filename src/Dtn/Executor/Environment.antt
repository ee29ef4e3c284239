-- ===== src/Dtn/Executor/Environment.antt =====
-- Executor._prepare_wasi_environment: the directories and files that a job finds. What it does to
-- the file system is the record of its writes, and of the directories that it makes and removes,
-- the latest first. `resolve` is Path.resolve, which consults the file system, a parameter;
-- failures of the file system other than a missing blob are not modelled.
use ma_sinafadavi_claude.Prelude.{
  Option, none, some, List, [], ◌∷◌, ◌++◌, Str, Bytes, codes, if◌then◌else◌, Result, ok, err,
  value_error, Exec, after,
}
use ma_sinafadavi_claude.Dtn.Storage.{Storage, copy_to_file}
use ma_sinafadavi_claude.Dtn.Job.{JobInfo}
use ma_sinafadavi_claude.Dtn.Executor.Paths.{FilePath, join, is_relative_to, parent}

pub record Disk : Type 0 where
  pub storage : Storage
  pub writes : List (FilePath × Bytes)
  pub made : List FilePath
  pub removed : List FilePath

-- path.mkdir(parents=True, exist_ok=True)
unfoldable pub mkdir : FilePath → Disk → Disk
mkdir path d = record d { made = path ∷ d.made }

-- self._storage.copy_to_file(name, path)
unfoldable pub copy : Str → FilePath → Exec Disk (Unit {0})
copy name path d =
    let (r, s) = copy_to_file name (λ content. (path, content) ∷ d.writes) d.storage in
    elim r [
      | ok writes ↦ (ok tt, record d { storage = s; writes = writes })
      | err e ↦ (err e, record d { storage = s })
    ]

-- an optional path field: none and the empty text are not given
unfoldable pub if_given : Option Str → (Str → Exec Disk (Unit {0})) → Exec Disk (Unit {0})
if_given none f d = (ok tt, d)
if_given (some []) f d = (ok tt, d)
if_given (some (c ∷ cs)) f d = f (c ∷ cs) d

module _ (resolve : FilePath → FilePath) where
  -- The path in the data directory, if it does not lead out of it.
  unfoldable pub inside : FilePath → Str → Result FilePath
  inside data_dir path =
      let abs = resolve (join data_dir path) in
      if is_relative_to abs data_dir then ok abs else err value_error

  unfoldable pub make_dirs : FilePath → List Str → Exec Disk (Unit {0})
  unfolding inside mkdir
  make_dirs data_dir [] d = (ok tt, d)
  make_dirs data_dir (p ∷ ps) d =
      after (inside data_dir p, d) λ abs d'. make_dirs data_dir ps (mkdir abs d')

  unfoldable pub write_files : FilePath → List (Str × Str) → Exec Disk (Unit {0})
  unfolding inside mkdir copy
  write_files data_dir [] d = (ok tt, d)
  write_files data_dir ((p, name) ∷ ps) d =
      after (inside data_dir p, d)
        λ abs d₁. after (copy name abs (mkdir (parent abs) d₁)) λ _. write_files data_dir ps

  -- the parent directory of stdout or stderr
  unfoldable pub make_parent : FilePath → Str → Exec Disk (Unit {0})
  unfolding inside mkdir
  make_parent data_dir p d = after (inside data_dir p, d) λ abs d'. (ok tt, mkdir (parent abs) d')

  unfoldable pub wasm_path : FilePath → FilePath
  wasm_path base = resolve (base ++ codes "module.wasm" ∷ [])

  unfoldable pub stdin_path : FilePath → FilePath
  stdin_path base = resolve (base ++ codes "stdin.bin" ∷ [])

  unfoldable pub data_directory : FilePath → FilePath
  data_directory base = resolve (base ++ codes "data" ∷ [])

  -- the two output paths
  unfoldable pub prepare_outputs : JobInfo → FilePath → Exec Disk (Unit {0})
  unfolding make_parent if_given
  prepare_outputs job data_dir d =
      after (if_given job.stdout_file (make_parent data_dir) d)
        λ _. if_given job.stderr_file (make_parent data_dir)

  unfoldable pub prepare_files : JobInfo → FilePath → Exec Disk (Unit {0})
  unfolding write_files prepare_outputs
  prepare_files job data_dir d =
      after (write_files data_dir job.data_files d) λ _. prepare_outputs job data_dir

  -- Everything from the data directory on.
  unfoldable pub prepare_data : JobInfo → FilePath → Exec Disk (Unit {0})
  unfolding make_dirs prepare_files
  prepare_data job data_dir d =
      after (make_dirs data_dir job.dirs (mkdir data_dir d)) λ _. prepare_files job data_dir

  unfoldable pub prepare_stdin : JobInfo → FilePath → Exec Disk (Unit {0})
  unfolding prepare_data copy if_given
  prepare_stdin job base d =
      after (if_given job.stdin_file (λ name. copy name (stdin_path base)) d)
        λ _. prepare_data job (data_directory base)

  -- The paths that are returned are `wasm_path`, `stdin_path` and `data_directory` of the base.
  unfoldable pub prepare_wasi_environment : JobInfo → FilePath → Exec Disk (Unit {0})
  unfolding prepare_stdin copy mkdir
  prepare_wasi_environment job base d =
      after (copy job.wasm_module (wasm_path base) (mkdir base d)) λ _. prepare_stdin job base
