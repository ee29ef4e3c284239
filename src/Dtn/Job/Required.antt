-- ===== src/Dtn/Job/Required.antt =====
-- Laws of rec/dtn/job.py.
use ma_sinafadavi_claude.Prelude.{
  true, ◌&&◌, ◌||◌, List, [], ◌∷◌, ◌++◌, Str, member, ◌≤◌, keep, keys, values, not, ◌≡◌, ◌↔◌, refl,
  arith, is_empty, member-dedup, member-append, member-keep, str_eq,
}
use ma_sinafadavi_claude.Dtn.Job.{
  Capabilities, is_capable_of, JobInfo, given, required_named_data, Job, is_subset, has_all_data,
  missing_data,
}

-- A system is capable of a job exactly when every resource suffices.
pub is_capable_of_iff :
    (s c : Capabilities)
    → (is_capable_of s c ≡ true) ↔ (
        (c.cpu_cores ≤ s.cpu_cores)
        × (c.free_cpu_capacity ≤ s.free_cpu_capacity)
        × (c.free_memory ≤ s.free_memory)
        × (c.free_disk_space ≤ s.free_disk_space))
unfolding is_capable_of
is_capable_of_iff s c = (λ h. ground arith, λ h. ground arith)

-- Capability is a preorder: a system that is capable of what another offers takes all its jobs.
pub is_capable_of_trans :
    (a b c : Capabilities)
    → is_capable_of a b ≡ true
    → is_capable_of b c ≡ true
    → is_capable_of a c ≡ true
unfolding is_capable_of
is_capable_of_trans a b c h k = ground arith

-- The required names are the module, the stdin file if one is given, and the data files' names.
pub member-required_named_data :
    (n : Str) (j : JobInfo)
    → member n (required_named_data j) ≡ (
        str_eq j.wasm_module n || (member n (given j.stdin_file) || member n (values j.data_files)))
unfolding required_named_data
member-required_named_data n j =
    rw (member-dedup n (j.wasm_module ∷ (given j.stdin_file ++ values j.data_files)))
      (unfold member in rw (member-append n (given j.stdin_file) (values j.data_files)))

subset-missing :
    (xs names : List Str) → is_subset xs names ≡ is_empty (keep (λ n. not (member n names)) xs)
unfolding is_subset keep
subset-missing [] names = refl
subset-missing (x ∷ xs) names = ground (arith, subset-missing xs names)

-- A job has all its data exactly when none is missing, and a name is missing exactly when it is
-- required and did not come with the job.
pub has_all_data-missing_data :
    (j : Job)
    → (has_all_data j ≡ is_empty (missing_data j))
      × ((n : Str)
          → member n (missing_data j)
            ≡ (member n (required_named_data j.metadata) && not (member n (keys j.contents))))
unfolding has_all_data missing_data
has_all_data-missing_data j = (
  subset-missing (required_named_data j.metadata) (keys j.contents),
  λ n. member-keep (λ m. not (member m (keys j.contents))) n (required_named_data j.metadata),
)
