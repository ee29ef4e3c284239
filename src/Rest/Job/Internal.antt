-- ===== src/Rest/Job/Internal.antt =====
-- ExecutorInternalJobInfo of rec/rest/job.py: a job with its paths inside the job's directories.
use ma_sinafadavi_claude.Rest.Names.{path_join, prevent_breakout, basename}
use ma_sinafadavi_claude.Rest.Model.{Source}
use ma_sinafadavi_claude.Prelude.{
  List, ◌∷◌, ◌>>=◌, if◌then◌else◌, Option, none, some, [], insert, Result, Str, is_empty, ok, err,
  attribute_error,
}
use ma_sinafadavi_claude.Rest.Job.{StrDict, exec_wasm, invalid_formatting, named, JobInfo, placed}

pub record Internal : Type 0 where
  pub wasm_bin : Str × Str
  pub stdin : Option Str
  pub env : StrDict
  pub args : List Str
  pub job_data : StrDict
  pub named_data : StrDict
  pub to_store_named : StrDict
  pub zip_results : StrDict
  pub named_results : StrDict

-- the directories of an executor's job
pub record Dirs : Type 0 where
  pub code : Str
  pub data_dir : Str

module _ (expanduser expandvars : Str → Str) where
  -- def data_path
  unfoldable pub data_path : Str → Str → Result Str
  unfolding prevent_breakout path_join
  data_path dir path = prevent_breakout expanduser expandvars path >>= λ p. ok (path_join dir p)

  -- {name: job.data_path(path) for name, path in entries}
  unfoldable pub with_data_paths : Str → StrDict → Result StrDict
  unfolding data_path
  with_data_paths dir [] = ok []
  with_data_paths dir ((name, path) ∷ entries) =
      data_path dir path >>= λ p. with_data_paths dir entries >>= λ rest. ok ((name, p) ∷ rest)

  -- {job.data_path(host_path): prevent_breakout(zip_path) for ...}, after the entries that are there
  unfoldable pub zip_paths : Str → StrDict → StrDict → Result StrDict
  unfolding data_path
  zip_paths dir [] done = ok done
  zip_paths dir ((host, zip) ∷ entries) done = data_path dir host >>= λ p.
      prevent_breakout expanduser expandvars zip >>= λ z. zip_paths dir entries (insert p z done)

  -- {job.data_path(host_path): name for ...}, after the entries that are there
  unfoldable pub result_paths : Str → StrDict → StrDict → Result StrDict
  unfolding data_path
  result_paths dir [] done = ok done
  result_paths dir ((host, name) ∷ entries) done =
      data_path dir host >>= λ p. result_paths dir entries (insert p name done)

  unfoldable pub wasm_place : Str → Source → Result (Str × Str)
  unfolding prevent_breakout path_join
  wasm_place code (named s) = ok (s, path_join code exec_wasm)
  wasm_place code (placed s name) =
      prevent_breakout expanduser expandvars name >>= λ p. ok (s, path_join code p)

  -- self.stdin. The tuple's branch writes into self.job_data, which no one has assigned yet.
  unfoldable pub stdin_place : Str → Source → Result (Option Str)
  unfolding data_path
  stdin_place dir (named s) = if is_empty s then ok none else (data_path dir s >>= λ p. ok (some p))
  stdin_place dir (placed s name) = if is_empty s then ok none else err attribute_error

  -- the constructor
  unfoldable pub internal_job_info : Dirs → JobInfo → Result Internal
  unfolding wasm_place stdin_place with_data_paths zip_paths result_paths basename
      invalid_formatting
  internal_job_info dirs j = invalid_formatting (
      wasm_place dirs.code j.wasm_bin >>= λ wasm. stdin_place dirs.data_dir j.stdin >>= λ input.
      with_data_paths dirs.data_dir j.job_data >>= λ own.
      with_data_paths dirs.data_dir j.named_data >>= λ shared.
      zip_paths dirs.data_dir j.zip_results [] >>= λ zips.
      result_paths dirs.data_dir j.named_results [] >>= λ results. ok (record {
        wasm_bin = wasm;
        stdin = input;
        env = j.env;
        args = basename wasm.1 ∷ j.args;
        job_data = own;
        named_data = shared;
        to_store_named = results;
        zip_results = zips;
        named_results = results;
      }))
