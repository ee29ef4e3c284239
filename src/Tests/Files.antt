-- ===== src/Tests/Files.antt =====
-- Runs of rec/rest/job.py, with the client's uploads and the executor's files.
use ma_sinafadavi_claude.Rest.ExecutorNode.Started.{download_rounds-Downloads}
use ma_sinafadavi_claude.Rest.ExecutorNode.Start.{download_rounds}
use ma_sinafadavi_claude.Rest.Job.Fetched.{uploads_fetched}
use ma_sinafadavi_claude.Rest.Job.{
  job_data_name, insert_all, transform_job_info_broker, files_to_upload,
}
use ma_sinafadavi_claude.Rest.Job.Uploads.{own_names, entries}
use ma_sinafadavi_claude.Rest.Job.Files.{Host, store_named, Broker, Disk}
use ma_sinafadavi_claude.Rest.Job.Files.Downloaded.{Downloads}
use ma_sinafadavi_claude.Rest.Job.Files.Stored.{store_front, store_named-front}
use ma_sinafadavi_claude.Rest.Job.Stdin.{placed_stdin_fails}
use ma_sinafadavi_claude.Rest.Job.Internal.{internal_job_info, Internal, Dirs, wasm_place}
use ma_sinafadavi_claude.Prelude.{
  ◌≡◌, ◌++◌, ◌∷◌, ℕ, suc, refl, true, false, none, [], map, Str, codes, str_eq, member, values,
  is_empty, keys, err, attribute_error, insert, lookup, starts_with, ◌+◌,
}
use ma_sinafadavi_claude.Rest.Model.{JobInfo, Source, named, placed, Capabilities}

abbrev idle : Capabilities
idle = record {
  memory = 0;
  disk = 0;
  cpu_load = 0;
  cpu_cores = 0;
  cpu_freq = 0;
  has_battery = false;
  power = 0;
}

abbrev job_with : Source → JobInfo
job_with stdin = record {
  wasm_bin = named (codes "p");
  wasm_bin_is_named = false;
  stdin = stdin;
  stdin_is_named = false;
  job_data = (codes "q", codes "a") ∷ [];
  named_data = [];
  directories = [];
  args = [];
  env = [];
  zip_results = [];
  named_results = [];
  capabilities = idle;
  result_addr = record { host = []; port = 0 };
  delete = true;
}

abbrev pub text_job : JobInfo
text_job = job_with (named (codes "in"))

unfoldable pub sent : JobInfo
sent = (transform_job_info_broker (codes "j") text_job).1

no_prefix : (n : Str) → member (job_data_name (codes "j") n) (keys text_job.job_data) ≡ false
no_prefix n = unfold member keys str_eq in refl

uploads_fetched_example :
    member (codes "j/a") (own_names sent)
    ≡ member
        (codes "j/a")
        (map (job_data_name (codes "j")) (values (insert_all (entries text_job) [])))
unfolding keys member str_eq entries insert transform_job_info_broker
uploads_fetched_example =
    uploads_fetched (codes "j") (codes "j/a") text_job sent (insert_all (entries text_job) [])
      (unfold entries in (refl, (refl, (refl, tt)))) no_prefix (unfold files_to_upload in refl)
      (unfold sent in refl)

abbrev tuple_job : JobInfo
tuple_job = job_with (placed (codes "in") (codes "s"))

abbrev dirs : Dirs
dirs = record { code = codes "/c"; data_dir = codes "/d" }

unfoldable tuple_sent : JobInfo
tuple_sent = (transform_job_info_broker (codes "j") tuple_job).1

placed_stdin_fails_example :
    internal_job_info (λ s. s) (λ s. s) dirs tuple_sent ≡ err attribute_error
unfolding transform_job_info_broker lookup insert str_eq wasm_place starts_with
placed_stdin_fails_example =
    placed_stdin_fails (λ s. s) (λ s. s) (codes "j") dirs tuple_job tuple_sent 105 115 (codes "n")
      [] (codes "j/exec.wasm", codes "/c/exec.wasm") refl refl (unfold tuple_sent in refl)
      (unfold tuple_sent in refl)

-- a broker that has one file and takes none
abbrev pub broker : Broker ℕ
broker = record {
  get_data = λ name w. ((7 ∷ [], str_eq name (codes "n")), suc w);
  store_data = λ bytes name w. (false, suc w);
  get_data_glob = λ prefix w. ([], w);
}

abbrev pub host : Host
host = record { is_dir = λ path. false; can_open = λ path. true; can_remove = λ path. true }

abbrev pub disk : Disk ℕ
disk = record { files = (codes "/d/a", 1 ∷ []) ∷ []; world = 0 }

abbrev internal : Internal
internal = record {
  wasm_bin = (codes "n", codes "/c/n");
  stdin = none;
  env = [];
  args = [];
  job_data = (codes "m", codes "/d/m") ∷ [];
  named_data = [];
  to_store_named = (codes "/d/a", codes "out") ∷ [];
  zip_results = [];
  named_results = (codes "/d/a", codes "out") ∷ [];
}

download_rounds-Downloads_example :
    Downloads broker host
      (internal.wasm_bin ∷ (internal.job_data ++ internal.named_data))
      disk
      (download_rounds broker host (λ w. w + 1) 10 internal disk)
download_rounds-Downloads_example =
    download_rounds-Downloads broker host (λ w. w + 1) 10 internal disk

store_named-front_example : store_named broker host internal.to_store_named disk ≡ (
  is_empty (store_front broker host internal.to_store_named disk).0,
  store_front broker host internal.to_store_named disk,
)
store_named-front_example =
    store_named-front broker host internal.to_store_named disk (unfold keys member in (refl, tt))
