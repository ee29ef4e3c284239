-- ===== src/Rest/Job.antt =====
-- rec/rest/job.py and the file handling of rec/rest/nodes/client.py: what a client uploads for a job,
-- and how it rewrites the job for the broker. `named` is a text of the job info and `placed` a tuple.
pub mod Uploads
pub mod Fetched
pub mod Internal
pub mod Stdin
pub mod Files
use ma_sinafadavi_claude.Prelude.{
  true, Option, none, some, List, [], ◌∷◌, ◌++◌, Str, codes, is_empty, lookup, insert, values,
  if◌then◌else◌, Result, ok, err, value_error, index_error, key_error, wasm_rest, Exec, after,
  ◌>>=◌, Bool, false,
}
use ma_sinafadavi_claude.Dtn.Eid.{slash}
use ma_sinafadavi_claude.Rest.Model.{JobInfo, Source, named, placed}

abbrev pub StrDict : Type 0
StrDict = List (Str × Str)

abbrev pub exec_wasm : Str
exec_wasm = codes "exec.wasm"

abbrev pub stdin_name : Str
stdin_name = codes "stdin"

abbrev pub job_data_name : Str → Str → Str
job_data_name id name = id ++ slash ∷ name

-- text[1]
unfoldable pub second : Str → Result Str
second [] = err index_error
second (c ∷ []) = err index_error
second (c ∷ d ∷ s) = ok (d ∷ [])

-- d[key]
unfoldable pub get_item : Str → StrDict → Result Str
get_item key d = elim (lookup key d) [ none ↦ err key_error | some v ↦ ok v ]

-- except ValueError as e: raise WasmRestException("Invalid Formatting") from e
unfoldable pub invalid_formatting {ℓ} : {A : Type ℓ} → Result A → Result A
invalid_formatting (ok a) = ok a
invalid_formatting (err value_error) = err (wasm_rest (codes "Invalid Formatting"))
invalid_formatting (err e) = err e

-- what is written to job_info.wasm_bin, from wasm_bin_is_named and wasm_bin
unfoldable pub transform_wasm : Str → Bool → Source → Source
transform_wasm id true bin = bin
transform_wasm id false (named s) = named (job_data_name id exec_wasm)
transform_wasm id false (placed host name) = placed (job_data_name id name) name

unfoldable pub transform_text : Str → Str → Exec JobInfo (Unit {0})
unfolding second
transform_text id text j = elim (second text) [
  | err e ↦ (err e, j)
  | ok c ↦ (
    ok tt,
    record j {
      job_data = insert (job_data_name id c) stdin_name j.job_data;
      stdin = named stdin_name;
    },
  )
]

unfoldable pub transform_placed : Str → Str → Str → Exec JobInfo (Unit {0})
unfolding get_item
transform_placed id host name j =
    let d = insert (job_data_name id name) name j.job_data in
    if is_empty host then (ok tt, j) else elim (get_item (job_data_name id name) d) [
      | err e ↦ (err e, record j { job_data = d })
      | ok v ↦ (ok tt, record j { job_data = d; stdin = placed v name })
    ]

-- the second step, by stdin_is_named and stdin
unfoldable pub transform_stdin : Str → Bool → Source → Exec JobInfo (Unit {0})
unfolding transform_text transform_placed
transform_stdin id true source j = (ok tt, j)
transform_stdin id false (named text) j = transform_text id text j
transform_stdin id false (placed host name) j = transform_placed id host name j

-- {self.job_data_name(path): path for path in paths}, from the entries that are there
unfoldable pub renamed : Str → List Str → StrDict → StrDict
renamed id [] d = d
renamed id (path ∷ paths) d = renamed id paths (insert (job_data_name id path) path d)

-- def transform_job_info_broker
unfoldable pub transform_job_info_broker : Str → Exec JobInfo (Unit {0})
unfolding transform_wasm transform_stdin renamed invalid_formatting
transform_job_info_broker id j =
    let wasm = transform_wasm id j.wasm_bin_is_named j.wasm_bin in
    let (r, j') =
      after (transform_stdin id j.stdin_is_named j.stdin (record j { wasm_bin = wasm }))
        (λ _ j'. (ok tt, record j' { job_data = renamed id (values j'.job_data) [] })) in
    (invalid_formatting r, j')

-- The entry of the program. A tuple's type is never the annotation `tuple[str, str]`.
unfoldable pub wasm_upload : Bool → Source → Result StrDict
wasm_upload true bin = ok []
wasm_upload false (named path) = ok ((path, exec_wasm) ∷ [])
wasm_upload false (placed host name) = err (wasm_rest (codes "Invalid Formatting in wasm_bin"))

unfoldable pub stdin_upload : Bool → Source → StrDict → StrDict
stdin_upload true source d = d
stdin_upload false (named path) d = if is_empty path then d else insert path stdin_name d
stdin_upload false (placed host name) d = if is_empty host then d else insert host name d

-- for host_path, path in entries: to_upload[host_path] = path
unfoldable pub insert_all : StrDict → StrDict → StrDict
insert_all [] d = d
insert_all ((host, path) ∷ entries) d = insert_all entries (insert host path d)

-- def files_to_upload
unfoldable pub files_to_upload : JobInfo → Result StrDict
unfolding wasm_upload stdin_upload insert_all invalid_formatting
files_to_upload j = invalid_formatting (
    wasm_upload j.wasm_bin_is_named j.wasm_bin >>= λ d.
    ok (insert_all j.job_data (stdin_upload j.stdin_is_named j.stdin d)))
