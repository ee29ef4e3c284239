-- ===== src/Dtn/Storage.antt =====
-- rec/dtn/storage.py: named data on disk, with one blob file for each content. TinyDB is the list
-- of its documents in the order of insertion, the blob directory a dict from file names to
-- contents. The lock makes each method one step. `sha1` is a parameter of whoever stores data.
-- File-system failures other than a missing blob are not modelled.
pub mod Unique
pub mod Views
pub mod Loads
pub mod Lost
use ma_sinafadavi_claude.Prelude.{
  Bool, true, false, List, [], ◌∷◌, ◌++◌, Option, none, some, if◌then◌else◌, not, Str, Bytes,
  str_eq, starts_with, lookup, insert, keep, dedup, is_empty, Result, ok, err, name_taken,
  no_such_name, Exec,
}

-- a document of the database
pub record Entry : Type 0 where
  pub name : Str
  pub filename : Str

pub record Storage : Type 0 where
  pub db : List Entry
  pub blobs : List (Str × Bytes)

-- self._db.search(db_data.name == name)
unfoldable pub search_name : Str → List Entry → List Entry
search_name name db = keep (λ e. str_eq e.name name) db

-- self._db.search(db_data.name.test(prefix_finder))
unfoldable pub search_prefix : Str → List Entry → List Entry
search_prefix name db = keep (λ e. starts_with e.name name) db

-- self._db.insert
unfoldable pub insert_entry : Str → Str → Storage → Storage
insert_entry name filename s = record s {
  db = s.db ++ record { name = name; filename = filename } ∷ [];
}

-- The new blob is written only if no file has its name.
unfoldable pub write_blob : Str → Bytes → Storage → Storage
write_blob filename content s = elim (lookup filename s.blobs) [
  | some old ↦ s
  | none ↦ record s { blobs = insert filename content s.blobs }
]

module _ (sha1 : Bytes → Str) where
  unfoldable pub store_data : Str → Bytes → Exec Storage (Unit {0})
  unfolding search_name write_blob insert_entry
  store_data name content s = elim (search_name name s.db) [
    | e ∷ es ↦ (err (name_taken name), s)
    | [] ↦ (ok tt, insert_entry name (sha1 content) (write_blob (sha1 content) content s))
  ]

-- async def _cleanup(names)
unfoldable pub cleanup : List Str → Storage → Storage
cleanup [] s = s
cleanup (name ∷ names) s =
    cleanup names (record s { db = keep (λ e. not (str_eq e.name name)) s.db })

-- The loop of load_data: what was read, and the file names of the blobs that were not there.
unfoldable pub read_entries : List (Str × Bytes) → List Entry → List (Str × Bytes) × List Str
read_entries blobs [] = ([], [])
read_entries blobs (e ∷ es) =
    let (found, gone) = read_entries blobs es in
    elim (lookup e.filename blobs) [
      | some content ↦ ((e.name, content) ∷ found, gone)
      | none ↦ (found, e.filename ∷ gone)
    ]

unfoldable pub load_data : Str → Storage → List (Str × Bytes) × Storage
unfolding search_prefix
load_data name s =
    let (all_data, disappeared) = read_entries s.blobs (search_prefix name s.db) in
    (all_data, cleanup disappeared s)

-- The set of names is a list with no repetition.
unfoldable pub find_missing : List Str → Storage → List Str
unfolding search_name
find_missing names s = keep (λ name. is_empty (search_name name s.db)) names

-- `write` is what the destination becomes when the content is copied to it.
unfoldable pub copy_to_file {ℓ} : {F : Type ℓ} → Str → (Bytes → F) → Storage → Result F × Storage
unfolding search_name
copy_to_file name write s = elim (search_name name s.db) [
  | [] ↦ (err (no_such_name name), s)
  | e ∷ es ↦ elim (lookup e.filename s.blobs) [
    | some content ↦ (ok (write content), s)
    | none ↦ (err (no_such_name name), cleanup (e.filename ∷ []) s)
  ]
]

abbrev pub empty_storage : Storage
empty_storage = record { db = []; blobs = [] }
