-- ===== src/Dtn/Executor/Collected.antt =====
-- Results come from the job's data directory only.
use ma_sinafadavi_claude.Prelude.{
  Bool, true, false, Option, none, some, List, [], ◌∷◌, ◌++◌, Str, Bytes, codes, if◌then◌else◌,
  Result, ok, err, value_error, ◌>>=◌, is_empty, ◌≡◌, refl, arith, inl, inr, Bool-cases, ap, sym,
  ◌⊎◌, ◌∙◌,
}
use ma_sinafadavi_claude.Dtn.Job.{JobInfo, given}
use ma_sinafadavi_claude.Dtn.Executor.Paths.{
  FilePath, join, is_relative_to, relative_to, relative_to-append,
}
use ma_sinafadavi_claude.Dtn.Executor.Collect.{
  Kind, absent, file, directory, other, FileSystem, entry_of, folder_entries, path_entries,
  result_entries, collect_results,
}

module _ (fs : FileSystem) (base : FilePath) where
  -- Every entry is a file of the file system, at its own name behind `base`.
  abbrev pub AreFiles : List (FilePath × Bytes) → Type 0
  AreFiles [] = Unit
  AreFiles ((arcname, c) ∷ es) = (fs.kind (base ++ arcname) ≡ file c) × AreFiles es

  AreFiles-append :
      (es ds : List (FilePath × Bytes)) → AreFiles es → AreFiles ds → AreFiles (es ++ ds)
  AreFiles-append [] ds h k = k
  AreFiles-append ((a, c) ∷ es) ds h k = (h.0, AreFiles-append es ds h.1 k)

  entry_of-AreFiles :
      (k : Kind) (arcname : FilePath)
      → fs.kind (base ++ arcname) ≡ k
      → AreFiles (entry_of fs k arcname)
  unfolding entry_of
  entry_of-AreFiles (file c) arcname h = (h, tt)
  entry_of-AreFiles absent arcname h = tt
  entry_of-AreFiles directory arcname h = tt
  entry_of-AreFiles other arcname h = tt

  -- What a collection returns, if it returns, are such files.
  abbrev ReturnsFiles : Result (List (FilePath × Bytes)) → Type 0
  ReturnsFiles (ok es) = AreFiles es
  ReturnsFiles (err e) = Unit

  ReturnsFiles-append :
      (m n : Result (List (FilePath × Bytes)))
      → ReturnsFiles m
      → ReturnsFiles n
      → ReturnsFiles (m >>= λ es. n >>= λ ds. ok (es ++ ds))
  ReturnsFiles-append (ok es) (ok ds) h k = AreFiles-append es ds h k
  ReturnsFiles-append (ok es) (err e) h k = tt
  ReturnsFiles-append (err e) n h k = tt

  ReturnsFiles-prepend :
      (es : List (FilePath × Bytes)) (n : Result (List (FilePath × Bytes)))
      → AreFiles es
      → ReturnsFiles n
      → ReturnsFiles (n >>= λ ds. ok (es ++ ds))
  ReturnsFiles-prepend es (ok ds) h k = AreFiles-append es ds h k
  ReturnsFiles-prepend es (err e) h k = tt

  folder_entries-ReturnsFiles : (ps : List FilePath) → ReturnsFiles (folder_entries fs base ps)
  unfolding folder_entries
  folder_entries-ReturnsFiles [] = tt
  folder_entries-ReturnsFiles (p ∷ ps) =
      go (relative_to p base) (relative_to-append p base) (folder_entries-ReturnsFiles ps)
    where
      go :
          (r : Option FilePath)
          → ((rest : FilePath) → r ≡ some rest → p ≡ base ++ rest)
          → ReturnsFiles (folder_entries fs base ps)
          → ReturnsFiles (elim r [
            | none ↦ err value_error
            | some a ↦ folder_entries fs base ps >>= λ rest. ok (entry_of fs (fs.kind p) a ++ rest)
          ])
      go none at k = tt
      go (some a) at k =
          ReturnsFiles-prepend (entry_of fs (fs.kind p) a) (folder_entries fs base ps)
            (entry_of-AreFiles (fs.kind p) a (ap fs.kind (sym (at a refl)))) k

  path_entries-ReturnsFiles :
      (abs : FilePath) (k : Kind) → fs.kind abs ≡ k → ReturnsFiles (path_entries fs base abs k)
  unfolding path_entries
  path_entries-ReturnsFiles abs absent h = tt
  path_entries-ReturnsFiles abs (file c) h = go (relative_to abs base) (relative_to-append abs base)
    where
      go :
          (r : Option FilePath)
          → ((rest : FilePath) → r ≡ some rest → abs ≡ base ++ rest)
          → ReturnsFiles (elim r [ none ↦ err value_error | some a ↦ ok ((a, c) ∷ []) ])
      go none at = tt
      go (some a) at = (ap fs.kind (sym (at a refl)) ∙ h, tt)
  path_entries-ReturnsFiles abs directory h = folder_entries-ReturnsFiles (fs.rglob abs)
  path_entries-ReturnsFiles abs other h = tt

  result_entries-ReturnsFiles : (ps : List Str) → ReturnsFiles (result_entries fs base ps)
  unfolding result_entries
  result_entries-ReturnsFiles [] = tt
  result_entries-ReturnsFiles (p ∷ ps) =
      let abs = fs.resolve (join base p) in
      ReturnsFiles-append
        (if is_relative_to abs base then path_entries fs base abs (fs.kind abs) else ok [])
        (result_entries fs base ps) (go (is_relative_to abs base) abs)
        (result_entries-ReturnsFiles ps)
    where
      go :
          (b : Bool) (abs : FilePath)
          → ReturnsFiles (if b then path_entries fs base abs (fs.kind abs) else ok [])
      go true abs = path_entries-ReturnsFiles abs (fs.kind abs) refl
      go false abs = tt

-- A collection of results that returns gives no zip, or the zip of files only, each of which lies
-- in the job's data directory, under its path in it and with its content, whatever result paths the
-- job names and whatever they resolve to.
pub collect_results-AreFiles :
    (fs : FileSystem) (job : JobInfo) (base : FilePath) (r : Option Bytes)
    → collect_results fs job base ≡ ok r
    → (r ≡ none)
      ⊎ ((es : List (FilePath × Bytes)) × (r ≡ some (fs.zip es))
          × AreFiles fs (fs.resolve (base ++ codes "data" ∷ [])) es)
unfolding collect_results
collect_results-AreFiles fs job base r h =
    elim (Bool-cases (is_empty (given job.results_receiver))) [
      | inl nobody ↦ inl (ground arith)
      | inr somebody ↦
          go (result_entries fs data_dir job.results)
            (result_entries-ReturnsFiles fs data_dir job.results) (rw somebody at h)
    ]
  where
    data_dir : FilePath
    data_dir = fs.resolve (base ++ codes "data" ∷ [])

    go :
        (m : Result (List (FilePath × Bytes)))
        → ReturnsFiles fs data_dir m
        → (m >>= λ es. ok (some (fs.zip es))) ≡ ok r
        → (r ≡ none)
          ⊎ ((es : List (FilePath × Bytes)) × (r ≡ some (fs.zip es)) × AreFiles fs data_dir es)
    go (ok es) k e = inr (es, ground arith, k)
    go (err x) k e = absurd (cc)
