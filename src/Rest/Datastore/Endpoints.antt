-- ===== src/Rest/Datastore/Endpoints.antt =====
-- The endpoints of rec/rest/nodes/datastore.py, on the two dicts behind its lock: a file object is
-- its path. `store_data` is two steps with File.store between them. What the operating system
-- answers - the free space, and whether `os.removedirs` raises no OSError - is an argument.
pub mod Deleted
use ma_sinafadavi_claude.Rest.Cache.{or_empty}
use ma_sinafadavi_claude.Rest.Names.{path_join, prevent_breakout}
use ma_sinafadavi_claude.Rest.Job.{StrDict}
use ma_sinafadavi_claude.Prelude.{
  List, ◌∷◌, ◌&&◌, ◌||◌, if◌then◌else◌, ℕ, Bool, true, false, not, Option, none, some, [], keys,
  codes, keep, insert, starts_with, Exec, ltb, remove, Str, str_eq, lookup, Error, is_empty, after,
  Result, http_error, err, ok, attribute_error,
}
use ma_sinafadavi_claude.Rest.Datastore.File.{FileStatus, created, error, interrupted}

pub record Datastore : Type 0 where
  pub data_files : StrDict
  pub stored_data : StrDict

unfoldable pub not_found : Error
not_found = http_error (codes "Resource Not Found")

unfoldable pub no_data : Error
no_data = http_error (codes "No data of that name")

-- data.endswith("/result")
unfoldable pub ends_with_result : Str → Bool
ends_with_result [] = false
ends_with_result (c ∷ cs) =
    let later = ends_with_result cs in str_eq (c ∷ cs) (codes "/result") || later

-- what delete_job_data deletes
unfoldable pub is_job_data : Str → Str → Bool
unfolding ends_with_result
is_job_data job_id name = starts_with name job_id && not (ends_with_result name)

module _ (expanduser expandvars : Str → Str) (root_dir : Str) where
  -- store_data up to file.store: the path of the file
  unfoldable pub store_begin : ℕ → ℕ → Str → Exec Datastore Str
  unfolding prevent_breakout path_join
  store_begin free size name s =
      if ltb free size
      then (err (http_error (codes "Not Enough Space")), s)
      else elim (prevent_breakout expanduser expandvars name) [
        | err e ↦ (err e, s)
        | ok p ↦
            (let path = path_join root_dir p in
              elim (lookup name s.data_files) [
                | none ↦ (ok path, record s { data_files = insert name path s.data_files })
                | some file ↦ (ok path, s)
              ])
      ]

-- store_data after file.store
unfoldable pub store_end : Str → Str → FileStatus → Exec Datastore Bool
store_end name path created s = (ok true, record s { stored_data = insert name path s.stored_data })
store_end name path interrupted s = (ok false, s)
store_end name path error s = (err (http_error (codes "Resource could not be created")), s)

-- the answer of get_data, with what the two dicts gave: the path of the file that is sent
unfoldable pub found_file : Option Str → Option Str → Result Str
unfolding not_found
found_file none file = err not_found
found_file (some path) none = err not_found
found_file (some path) (some file) = ok file

-- the endpoint get_data
unfoldable pub get_data : Str → Datastore → Result Str
unfolding found_file
get_data name s = found_file (lookup name s.stored_data) (lookup name s.data_files)

-- the rest of _delete_data, with what the two dicts gave
unfoldable pub delete_paths : Bool → Option Str → Option Str → Result Bool
delete_paths pruned none file = ok false
delete_paths pruned (some path) none = if is_empty path then ok false else err attribute_error
delete_paths pruned (some path) (some file) = if is_empty path then ok false else ok pruned

-- def _delete_data
unfoldable pub delete_name : (Str → Bool) → Str → Exec Datastore Bool
unfolding delete_paths
delete_name removedirs name s =
    let path = lookup name s.stored_data in
    let file = lookup name s.data_files in
    (
      delete_paths (removedirs (or_empty path)) path file,
      record { data_files = remove name s.data_files; stored_data = remove name s.stored_data },
    )

-- the endpoint delete_data
unfoldable pub delete_data : (Str → Bool) → Str → Exec Datastore (Unit {0})
unfolding delete_name no_data
delete_data removedirs name s =
    after (delete_name removedirs name s) (λ b s'. (if b then ok tt else err no_data, s'))

-- for data in names: self._delete_data(data)
unfoldable pub delete_names : (Str → Bool) → List Str → Exec Datastore (Unit {0})
unfolding delete_name
delete_names removedirs [] s = (ok tt, s)
delete_names removedirs (name ∷ names) s =
    after (delete_name removedirs name s) (λ b s'. delete_names removedirs names s')

-- the endpoint delete_job_data
unfoldable pub delete_job_data : (Str → Bool) → Str → Exec Datastore (Unit {0})
unfolding delete_names is_job_data
delete_job_data removedirs job_id s =
    delete_names removedirs (keep (is_job_data job_id) (keys s.stored_data)) s

-- the endpoint data_list
unfoldable pub data_list : Datastore → List Str
data_list s = keys s.stored_data

-- what the endpoint paginate_data divides into pages
unfoldable pub listed : Str → Option Str → Datastore → List Str
unfolding or_empty
listed name job_id s =
    keep (λ data_name. starts_with data_name (or_empty job_id) && starts_with data_name name)
      (keys s.stored_data)
