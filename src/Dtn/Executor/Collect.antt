-- ===== src/Dtn/Executor/Collect.antt =====
-- Executor._collect_results and _collect_named_results: what a job leaves behind. The file system
-- after the run is a parameter, and so is the zip file that is made of entries.
use ma_sinafadavi_claude.Prelude.{
  Option, none, some, List, [], ◌∷◌, ◌++◌, Str, Bytes, codes, if◌then◌else◌, Result, ok, err,
  value_error, ◌>>=◌, insert, is_empty,
}
use ma_sinafadavi_claude.Dtn.Job.{JobInfo, given}
use ma_sinafadavi_claude.Dtn.Executor.Paths.{FilePath, join, is_relative_to, relative_to, parent}

pub data Kind : Type 0 where
  absent : Kind
  file : Bytes → Kind
  directory : Kind
  other : Kind

-- what pathlib and zipfile offer
pub record FileSystem : Type 0 where
  pub resolve : FilePath → FilePath
  pub kind : FilePath → Kind
  pub rglob : FilePath → List FilePath
  pub zip : List (FilePath × Bytes) → Bytes

module _ (fs : FileSystem) where
  -- an entry for a path that is a file
  unfoldable pub entry_of : Kind → FilePath → List (FilePath × Bytes)
  entry_of (file c) arcname = (arcname, c) ∷ []
  entry_of _ arcname = []

  -- the files among the paths, named relative to `base`
  unfoldable pub folder_entries : FilePath → List FilePath → Result (List (FilePath × Bytes))
  unfolding entry_of
  folder_entries base [] = ok []
  folder_entries base (p ∷ ps) = elim (relative_to p base) [
    | none ↦ err value_error
    | some arcname ↦ folder_entries base ps >>= λ rest. ok (entry_of (fs.kind p) arcname ++ rest)
  ]

  -- the entries of one result path, in the data directory
  unfoldable pub path_entries : FilePath → FilePath → Kind → Result (List (FilePath × Bytes))
  unfolding folder_entries
  path_entries data_dir abs absent = ok []
  path_entries data_dir abs (file c) = elim (relative_to abs data_dir) [
    | none ↦ err value_error
    | some arcname ↦ ok ((arcname, c) ∷ [])
  ]
  path_entries data_dir abs directory = folder_entries data_dir (fs.rglob abs)
  path_entries data_dir abs other = ok []

  unfoldable pub result_entries : FilePath → List Str → Result (List (FilePath × Bytes))
  unfolding path_entries
  result_entries data_dir [] = ok []
  result_entries data_dir (p ∷ ps) =
      let abs = fs.resolve (join data_dir p) in
      (if is_relative_to abs data_dir then path_entries data_dir abs (fs.kind abs) else ok [])
      >>= λ es. result_entries data_dir ps >>= λ rest. ok (es ++ rest)

  unfoldable pub collect_results : JobInfo → FilePath → Result (Option Bytes)
  unfolding result_entries
  collect_results job base =
      if is_empty (given job.results_receiver)
      then ok none
      else result_entries (fs.resolve (base ++ codes "data" ∷ [])) job.results >>= λ es.
          ok (some (fs.zip es))

  -- the content that a named result has, if its path is a file or a directory
  unfoldable pub named_content : FilePath → Kind → Result (Option Bytes)
  unfolding folder_entries
  named_content abs absent = ok none
  named_content abs (file c) = ok (some c)
  named_content abs directory =
      folder_entries (parent abs) (fs.rglob abs) >>= λ es. ok (some (fs.zip es))
  named_content abs other = ok none

  unfoldable pub add_named : Str → Option Bytes → List (Str × Bytes) → List (Str × Bytes)
  add_named name none results = results
  add_named name (some c) results = insert name c results

  unfoldable pub named_from :
      FilePath → List (Str × Str) → List (Str × Bytes) → Result (List (Str × Bytes))
  unfolding named_content add_named
  named_from data_dir [] results = ok results
  named_from data_dir ((p, name) ∷ ps) results =
      let abs = fs.resolve (join data_dir p) in
      (if is_relative_to abs data_dir then named_content abs (fs.kind abs) else ok none)
      >>= λ content. named_from data_dir ps (add_named name content results)

  unfoldable pub collect_named_results : JobInfo → FilePath → Result (List (Str × Bytes))
  unfolding named_from
  collect_named_results job base =
      named_from (fs.resolve (base ++ codes "data" ∷ [])) job.named_results []
