-- ===== src/Dtn/Job.antt =====
-- rec/dtn/job.py: what a job needs. Capacities and sizes are numbers that are not negative. What
-- psutil reports of the system is a parameter of the executor.
pub mod Required
use ma_sinafadavi_claude.Prelude.{
  ℕ, Bool, true, false, ◌&&◌, Option, none, some, List, [], ◌∷◌, ◌++◌, Str, Bytes, leb, member,
  dedup, keep, keys, values, not, if◌then◌else◌,
}

pub record Capabilities : Type 0 where
  pub cpu_cores : ℕ
  pub free_cpu_capacity : ℕ
  pub free_memory : ℕ
  pub free_disk_space : ℕ

unfoldable pub is_capable_of : Capabilities → Capabilities → Bool
is_capable_of self caps =
    leb caps.cpu_cores self.cpu_cores
    && (leb caps.free_cpu_capacity self.free_cpu_capacity
        && (leb caps.free_memory self.free_memory && leb caps.free_disk_space self.free_disk_space))

pub record JobInfo : Type 0 where
  pub wasm_module : Str
  pub capabilities : Capabilities
  pub argv : List Str
  pub env : List (Str × Str)
  pub stdin_file : Option Str
  pub dirs : List Str
  pub data_files : List (Str × Str)
  pub stdout_file : Option Str
  pub stderr_file : Option Str
  pub results : List Str
  pub named_results : List (Str × Str)
  pub results_receiver : Option Str

-- The text of an optional field as a list: none or the empty text count as false.
unfoldable pub given : Option Str → List Str
given none = []
given (some []) = []
given (some (c ∷ cs)) = (c ∷ cs) ∷ []

unfoldable pub required_named_data : JobInfo → List Str
unfolding given
required_named_data j = dedup (j.wasm_module ∷ (given j.stdin_file ++ values j.data_files))

pub record Job : Type 0 where
  pub metadata : JobInfo
  pub contents : List (Str × Bytes)

-- required.issubset(names)
unfoldable pub is_subset : List Str → List Str → Bool
is_subset [] names = true
is_subset (x ∷ xs) names = member x names && is_subset xs names

unfoldable pub has_all_data : Job → Bool
has_all_data j = is_subset (required_named_data j.metadata) (keys j.contents)

unfoldable pub missing_data : Job → List Str
missing_data j = keep (λ n. not (member n (keys j.contents))) (required_named_data j.metadata)
