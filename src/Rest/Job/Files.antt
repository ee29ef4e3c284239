-- ===== src/Rest/Job/Files.antt =====
-- The files of an executor's job: try_download_file and try_store_named_data of rec/util/fs.py, and
-- the methods of ExecutorJob of rec/rest/job.py that fetch and store through the broker. The broker
-- is a parameter that steps a world of its own: `get_data` gives the bytes that it wrote to the file,
-- all or some, and its answer. Which paths are directories, which can be opened for writing and which
-- files can be removed are parameters, too; a file can be read if it is there.
pub mod Downloaded
pub mod Stored
pub mod Globs
use ma_sinafadavi_claude.Rest.Job.Internal.{Internal}
use ma_sinafadavi_claude.Rest.Names.{drop_last}
use ma_sinafadavi_claude.Prelude.{
  List, ◌++◌, ◌∷◌, ◌&&◌, ◌||◌, ◌-◌, ◌==◌, if◌then◌else◌, Bool, true, false, none, some, [], insert,
  Exec, drop, Str, after, remove, length, Result, Bytes, lookup, is_empty, ok, err, os_error,
  Option,
}
use ma_sinafadavi_claude.Rest.Job.{StrDict, insert_all}

pub record Disk (W : Type 0) : Type 0 where
  pub files : List (Str × Bytes)
  pub world : W

pub record Broker (W : Type 0) : Type 0 where
  pub get_data : Str → W → (Bytes × Bool) × W
  pub store_data : Bytes → Str → W → Bool × W
  pub get_data_glob : Str → W → List Str × W

pub record Host : Type 0 where
  pub is_dir : Str → Bool
  pub can_open : Str → Bool
  pub can_remove : Str → Bool

unfoldable pub ends_in_star : Str → Bool
ends_in_star [] = false
ends_in_star (c ∷ []) = c == b'*'
ends_in_star (c ∷ d ∷ cs) = ends_in_star (d ∷ cs)

-- path[:-1] + full_name[len(name) - 1 :]
unfoldable pub starred : Str → Str → Str → Str
starred name path full = drop_last path ++ drop (length name - 1) full

unfoldable pub is_glob : Str → Str → Bool
unfolding ends_in_star
is_glob name path = ends_in_star name && ends_in_star path

-- for name in names: to_add[name] = ...
unfoldable pub add_starred : Str → Str → List Str → StrDict → StrDict
unfolding starred
add_starred name path [] to_add = to_add
add_starred name path (full ∷ names) to_add =
    add_starred name path names (insert full (starred name path full) to_add)

-- for name in names: d.pop(name, None)
unfoldable pub remove_each {ℓ} : {V : Type ℓ} → List Str → List (Str × V) → List (Str × V)
remove_each [] d = d
remove_each (k ∷ ks) d = remove_each ks (remove k d)

module _ {W : Type 0} (broker : Broker W) (host : Host) where
  -- os.path.exists(path)
  unfoldable pub exists : Str → Disk W → Bool
  exists path s = host.is_dir path || (elim (lookup path s.files) [ none ↦ false | some b ↦ true ])

  -- what try_download_file leaves behind, after the broker's answer
  unfoldable pub downloaded : Str → (Bytes × Bool) × W → List (Str × Bytes) → Result Bool × Disk W
  downloaded path ((bytes, done), w) files =
      let written = insert path bytes files in
      if done then (ok true, record { files = written; world = w }) else (
        ok false,
        record { files = if host.can_remove path then remove path written else written; world = w },
      )

  -- def try_download_file
  unfoldable pub try_download_file : Str → Str → Exec (Disk W) Bool
  unfolding exists downloaded
  try_download_file name path s =
      if exists path s
      then (ok true, s)
      else if host.can_open path
      then downloaded path (broker.get_data name s.world) s.files
      else (err os_error, s)

  -- for name, path in entries: if not try_download_file(name, path, broker): return False
  unfoldable pub try_download_each : StrDict → Exec (Disk W) Bool
  unfolding try_download_file
  try_download_each [] s = (ok true, s)
  try_download_each ((name, path) ∷ entries) s =
      after (try_download_file name path s)
        (λ b s'. let rest = try_download_each entries s' in if b then rest else (ok false, s'))

  -- def try_download_files
  unfoldable pub try_download_files : Internal → Exec (Disk W) Bool
  unfolding try_download_each
  try_download_files i s = after (try_download_file i.wasm_bin.0 i.wasm_bin.1 s) (λ b s1.
      if b
      then after (try_download_each i.job_data s1)
          (λ c s2. if c then try_download_each i.named_data s2 else (ok false, s2))
      else (ok false, s1))

  -- what try_store_named_data does with the file that it opens, if it can
  unfoldable pub stored : Str → Disk W → Option Bytes → Bool × Disk W
  stored name s none = (false, s)
  stored name s (some bytes) =
      let (b, w) = broker.store_data bytes name s.world in (b, record s { world = w })

  -- def try_store_named_data
  unfoldable pub try_store_named_data : Str → Str → Disk W → Bool × Disk W
  unfolding stored
  try_store_named_data name path s = stored name s (lookup path s.files)

  -- the loop of store_named: the paths that were stored, up to the first that could not be
  unfoldable pub store_each : StrDict → Disk W → List Str × Disk W
  unfolding try_store_named_data
  store_each [] s = ([], s)
  store_each ((path, name) ∷ entries) s =
      let (b, s') = try_store_named_data name path s in
      let (gone, s'') = store_each entries s' in if b then (path ∷ gone, s'') else ([], s')

  -- def store_named, with the to_store_named that it leaves
  unfoldable pub store_named : StrDict → Disk W → Bool × (StrDict × Disk W)
  unfolding store_each remove_each
  store_named todo s =
      let (gone, s') = store_each todo s in
      if is_empty todo
      then (true, (todo, s))
      else if length gone == length todo
      then (true, ([], s'))
      else (false, (remove_each gone todo, s'))

  -- the loop of resolve_glob_data: to_add and to_remove
  unfoldable pub glob_each : StrDict → StrDict → W → (StrDict × List Str) × W
  unfolding is_glob add_starred
  glob_each [] to_add w = ((to_add, []), w)
  glob_each ((name, path) ∷ entries) to_add w =
      let (names, w') = broker.get_data_glob (drop_last name) w in
      let ((to_add', to_remove), w'') = glob_each entries (add_starred name path names to_add) w' in
      let skipped = glob_each entries to_add w in
      if is_glob name path then ((to_add', name ∷ to_remove), w'') else skipped

  -- def resolve_glob_data, on named_data
  unfoldable pub resolve_glob_data : StrDict → W → StrDict × W
  unfolding glob_each insert_all remove_each
  resolve_glob_data named_data w =
      let ((to_add, to_remove), w') = glob_each named_data [] w in
      (remove_each to_remove (insert_all to_add named_data), w')
