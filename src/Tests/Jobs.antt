-- ===== src/Tests/Jobs.antt =====
-- Runs of rec/dtn/job.py and rec/dtn/executor.py.
use ma_sinafadavi_claude.Prelude.{
  ℕ, Option, true, none, some, List, [], ◌∷◌, ◌++◌, ◌&&◌, ◌||◌, Str, Bytes, codes, Result, ok, ◌≡◌,
  refl, member, not, keys, Exec, ◌⊎◌, keep, dedup, values, str_eq,
}
use ma_sinafadavi_claude.Dtn.Message.{
  BundleData, plain_bundle, job_submit, ndata_get, Message, reply, fetch_reply, NodeType, many,
}
use ma_sinafadavi_claude.Dtn.Message.Wire.{int}
use ma_sinafadavi_claude.Dtn.Storage.{Storage, find_missing}
use ma_sinafadavi_claude.Dtn.Job.{
  Capabilities, JobInfo, required_named_data, Job, is_capable_of, given,
}
use ma_sinafadavi_claude.Dtn.Executor.{
  Executor, Unpacked, plain, job_object, round, is_runnable, pop_next_runnable_job, accept_job,
}
use ma_sinafadavi_claude.Dtn.Executor.Queue.{NoneRunnable, pop_first_runnable}
use ma_sinafadavi_claude.Dtn.Executor.Handlers.{
  is_cached, AreRequests, accept_job-requested, pending_jobs-round,
}
use ma_sinafadavi_claude.Dtn.Executor.Paths.{FilePath, is_relative_to, join}
use ma_sinafadavi_claude.Dtn.Executor.Environment.{Disk, prepare_wasi_environment}
use ma_sinafadavi_claude.Dtn.Executor.Contained.{
  IsContained, MayWrite, MayMake, prepare_wasi_environment-IsContained,
}
use ma_sinafadavi_claude.Dtn.Executor.Collect.{file, FileSystem, collect_results}
use ma_sinafadavi_claude.Dtn.Executor.Collected.{AreFiles, collect_results-AreFiles}
use ma_sinafadavi_claude.Dtn.Executor.Run.{Outcome, turn}
use ma_sinafadavi_claude.Dtn.Executor.Turns.{turn_takes_first}
use ma_sinafadavi_claude.Tests.Stores.{one_name}

abbrev small : Capabilities
small = record { cpu_cores = 1; free_cpu_capacity = 10; free_memory = 10; free_disk_space = 10 }

abbrev large : Capabilities
large = record { cpu_cores = 9; free_cpu_capacity = 90; free_memory = 90; free_disk_space = 90 }

abbrev a : Str
a = codes "data/a"

-- a job whose module is `wasm`
abbrev job_of : Str → JobInfo
job_of wasm = record {
  wasm_module = wasm;
  capabilities = small;
  argv = [];
  env = [];
  stdin_file = none;
  dirs = codes "tmp" ∷ [];
  data_files = (codes "in/data", wasm) ∷ [];
  stdout_file = some (codes "out/log");
  stderr_file = none;
  results = codes "out" ∷ [];
  named_results = [];
  results_receiver = some (codes "dtn://client/rec");
}

abbrev ready : JobInfo
ready = job_of a

abbrev unready : JobInfo
unready = job_of (codes "data/b")

abbrev idle : Executor
idle = record {
  node = record {
    node_id = codes "dtn://executor/rec";
    node_type = NodeType.executor;
    broker_pending = none;
    broker = none;
  };
  storage = one_name;
  pending_jobs = [];
}

abbrev busy : Executor
busy = record idle { pending_jobs = unready ∷ ready ∷ [] }

ready_runs : is_runnable large one_name ready ≡ true
unfolding is_runnable find_missing keep required_named_data dedup member values str_eq is_capable_of
ready_runs = refl

unready_waits : NoneRunnable large one_name (unready ∷ [])
unfolding is_runnable find_missing keep required_named_data dedup member values str_eq
unready_waits = (refl, tt)

pop_first_runnable_example :
    pop_next_runnable_job large busy
    ≡ (some ready, record busy { pending_jobs = [] ++ unready ∷ [] })
pop_first_runnable_example =
    pop_first_runnable large busy (unready ∷ []) [] ready refl unready_waits ready_runs

abbrev sha1 : Bytes → Str
sha1 c = c

abbrev sent_job : Job
sent_job = record { metadata = unready; contents = [] }

abbrev asked : List BundleData
asked =
    (record (plain_bundle ndata_get (codes "dtn://executor/rec") (codes "dtn://rec.store/~")) {
      named_data = some (many (codes "data/b" ∷ []));
    })
    ∷ []

job_accepted :
    accept_job sha1 sent_job idle ≡ (ok asked, record idle { pending_jobs = unready ∷ [] })
unfolding accept_job find_missing keep required_named_data dedup member values str_eq
job_accepted = refl

accept_job-requested_example :
    (unready ∷ [] ≡ idle.pending_jobs ++ unready ∷ [])
    × ((ms : List Str) × AreRequests idle.node.node_id ms asked
        × ((n : Str)
            → member n ms ≡ (
                member n (required_named_data unready)
                && not (member n (keys sent_job.contents) || is_cached n idle.storage))))
accept_job-requested_example =
    accept_job-requested sha1 sent_job idle (record idle { pending_jobs = unready ∷ [] }) asked
      job_accepted

-- the unpacker gives plain values
abbrev unpackb : Bytes → Result Unpacked
unpackb bytes = ok (plain (int 0))

abbrev job_bundle : BundleData
job_bundle = plain_bundle job_submit (codes "dtn://client/rec") (codes "dtn://executor/rec")

never_job : (p : Bytes) (j : Job) → ¬ (unpackb p ≡ ok (job_object j))
never_job p j h = absurd (cc)

-- a dtnd that has a job for whoever fetches
abbrev send_job : Message → Exec ℕ Message
send_job m w = (ok (fetch_reply true [] (job_bundle ∷ [])), w)

pending_jobs-round_example :
    (round sha1 unpackb send_job (busy, 0)).0.pending_jobs ≡ busy.pending_jobs
pending_jobs-round_example = pending_jobs-round sha1 unpackb send_job (busy, 0) never_job

-- a dtnd that takes every message; the world is a number
abbrev send : Message → Exec ℕ Message
send m w = (ok (reply true []), w)

-- a run with one result, named as what is cached
abbrev run : JobInfo → Exec Storage Outcome
run job s = (ok (some (1 ∷ []), (a, 2 ∷ []) ∷ []), s)

turn_takes_first_example : (turn send sha1 run large (busy, 0)).0.pending_jobs ≡ [] ++ unready ∷ []
turn_takes_first_example =
    turn_takes_first send sha1 run large (busy, 0) (unready ∷ []) [] ready refl unready_waits
      ready_runs

abbrev base : FilePath
base = codes "jobs" ∷ codes "1" ∷ []

abbrev resolve : FilePath → FilePath
resolve p = p

abbrev disk : Disk
disk = record { storage = one_name; writes = []; made = []; removed = [] }

prepare_wasi_environment-IsContained_example :
    IsContained
      (MayWrite resolve base)
      (MayMake resolve base)
      (prepare_wasi_environment resolve ready base disk).1
prepare_wasi_environment-IsContained_example =
    prepare_wasi_environment-IsContained resolve base ready disk (record { writes = tt; made = tt })

-- every path is a file with one byte
abbrev fs : FileSystem
fs = record { resolve = resolve; kind = λ p. file (1 ∷ []); rglob = λ p. []; zip = λ es. 9 ∷ [] }

abbrev zipped : Option Bytes
zipped = some (9 ∷ [])

one_result : collect_results fs ready base ≡ ok zipped
unfolding collect_results given is_relative_to join str_eq
one_result = refl

collect_results-AreFiles_example :
    (zipped ≡ none)
    ⊎ ((es : List (FilePath × Bytes)) × (zipped ≡ some (fs.zip es))
        × AreFiles fs (fs.resolve (base ++ codes "data" ∷ [])) es)
collect_results-AreFiles_example = collect_results-AreFiles fs ready base zipped one_result
